-- ===== src/CommandLine/Top.antt =====
-- crates/madrpc-cli/src/top.rs: the monitor of a server. What is drawn is a list of panels with their
-- texts; the widgets and their styles are not modelled. Times are nanoseconds, and those of the metrics
-- are milliseconds.
pub mod Drawing
use Prim.Native.String.{◌++◌}
use madrpc.Prelude.{
  ℕ, zero, suc, ◌-◌, ◌*◌, ◌/◌, ◌%◌, ◌⊎◌, inl, inr, String, Bool, true, false, ◌||◌, Option, none,
  some, List, [], ◌∷◌, map, ltb, leb, ◌==◌, length, get_elem?, if◌then◌else◌,
}
use madrpc.Float.{F64}
use madrpc.Protocol.{MadrpcError, Result, ok, err, display}
use madrpc.Builtin.{ServerType, node, orchestrator}
use madrpc.Metrics.Recording.{MetricsSnapshot, MethodMetrics, NodeMetrics}

-- The texts of numbers: a whole number, and a number of microseconds as seconds with one place.
pub record Texts : Type 0 where
  pub show : ℕ → String
  pub seconds : ℕ → String

module _ (T : Texts) where
  unfoldable pub format_duration_ms : ℕ → String
  format_duration_ms ms =
      if ltb ms 1000
      then T.show ms ++ "ms"
      else if ltb ms 60000
      then T.show (ms / 1000) ++ "s"
      else if ltb ms 3600000
      then T.show (ms / 60000) ++ "m " ++ T.show (ms % 60000 / 1000) ++ "s"
      else T.show (ms / 3600000) ++ "h " ++ T.show (ms % 3600000 / 60000) ++ "m"

  unfoldable pub format_latency_us : ℕ → String
  format_latency_us us =
      if us == 0
      then "-"
      else if ltb us 1000
      then T.show us ++ "μs"
      else if ltb us 1000000
      then T.show (us / 1000) ++ "ms"
      else T.seconds us ++ "s"

pub record TopApp : Type 0 where
  pub server_address : String
  pub server_type : Option ServerType
  pub current_metrics : Option MetricsSnapshot
  pub error_message : Option String
  pub last_update : Option ℕ
  pub interval_ms : ℕ
  pub should_quit : Bool

unfoldable pub new_app : String → ℕ → TopApp
new_app server_address interval_ms = record {
  server_address = server_address;
  server_type = none;
  current_metrics = none;
  error_message = none;
  last_update = none;
  interval_ms = interval_ms;
  should_quit = false;
}

-- The answer of a call, read as a value: the call failed, the value is not one of the type, or it is.
pub data Fetched (A : Type 0) : Type 0 where
  not_fetched : String → Fetched A
  not_parsed : String → Fetched A
  fetched : A → Fetched A

unfoldable pub detect_server_type : Fetched ServerType → TopApp → TopApp
detect_server_type (fetched t) app = record app { server_type = some t; error_message = none }
detect_server_type (not_parsed e) app = record app {
  error_message = some ("Failed to parse server info: " ++ e);
}
detect_server_type (not_fetched e) app = record app {
  error_message = some ("Failed to connect to server: " ++ e);
}

unfoldable pub update_metrics : ℕ → Fetched MetricsSnapshot → TopApp → TopApp
update_metrics now (fetched metrics) app = record app {
  current_metrics = some metrics;
  last_update = some now;
  error_message = none;
}
update_metrics now (not_parsed e) app = record app {
  error_message = some ("Failed to parse metrics: " ++ e);
}
update_metrics now (not_fetched e) app = record app {
  error_message = some ("Failed to fetch metrics: " ++ e);
}

-- A key with a character, by its code, or another.
pub data KeyCode : Type 0 where
  char : ℕ → KeyCode
  other_key : KeyCode

unfoldable pub handle_key_event : KeyCode → TopApp → TopApp
handle_key_event (char c) app =
    if (c == 113) || (c == 81) then record app { should_quit = true } else app
handle_key_event other_key app = app

-- The panels: the title's server type, address and interval, the summary's numbers, a message, and the
-- rows of the tables.
pub data Panel : Type 0 where
  title_bar : String → String → String → Panel
  summary : List String → Panel
  error_panel : String → Panel
  loading : Panel
  nodes_table : List (List String) → Panel
  methods_table : List (List String) → Panel

-- `sort_by(|a, b| b.count.cmp(&a.count))`, which is stable.
unfoldable pub insert_desc : {A : Type 0} → (A → ℕ) → A → List A → List A
insert_desc key a [] = a ∷ []
insert_desc key a (b ∷ bs) = if leb (key b) (key a) then a ∷ b ∷ bs else b ∷ insert_desc key a bs

unfoldable pub sort_desc : {A : Type 0} → (A → ℕ) → List A → List A
sort_desc key [] = []
sort_desc key (a ∷ as_) = insert_desc key a (sort_desc key as_)

module _ (F : F64) (T : Texts) where
  unfoldable pub draw_summary : MetricsSnapshot → Panel
  draw_summary metrics =
      let uptime_secs = metrics.uptime_ms / 1000 in
      let uptime_mins = uptime_secs / 60 in
      let uptime_hours = uptime_mins / 60 in
      let uptime_str =
        if ltb 0 uptime_hours
        then T.show uptime_hours ++ "h " ++ T.show (uptime_mins % 60) ++ "m"
        else if ltb 0 uptime_mins
        then T.show uptime_mins ++ "m " ++ T.show (uptime_secs % 60) ++ "s"
        else T.show uptime_secs ++ "s" in
      let success_rate =
        if ltb 0 metrics.total_requests
        then F.to_u64 (
            F.mul (F.div (F.of_ℕ metrics.successful_requests) (F.of_ℕ metrics.total_requests))
              (F.of_ℕ 100))
        else 100 in
      summary (
        T.show metrics.total_requests
        ∷ T.show metrics.successful_requests
        ∷ T.show metrics.failed_requests
        ∷ (T.show success_rate ++ "%")
        ∷ T.show metrics.active_connections
        ∷ uptime_str
        ∷ T.show (length metrics.methods)
        ∷ [])

  abbrev type_text : Option ServerType → String
  type_text none = "Unknown"
  type_text (some node) = "Node"
  type_text (some orchestrator) = "Orchestrator"

  unfoldable pub draw_title_bar : TopApp → Panel
  draw_title_bar app =
      title_bar (type_text app.server_type) app.server_address
        ("Refresh: " ++ T.show app.interval_ms ++ "ms")

  unfoldable pub node_row : ℕ → NodeMetrics → List String
  node_row now_ms n =
      let last_request =
        if n.last_request_ms == 0
        then "Never"
        else format_duration_ms T (now_ms - n.last_request_ms) in
      n.node_addr ∷ T.show n.request_count ∷ last_request ∷ []

  abbrev values : {A : Type 0} → List (String × A) → List A
  values [] = []
  values ((k, a) ∷ m) = a ∷ values m

  unfoldable pub draw_nodes_table : ℕ → List (String × NodeMetrics) → Panel
  draw_nodes_table now_ms nodes =
      nodes_table
        (map (node_row now_ms) (sort_desc (λ (n : NodeMetrics). n.request_count) (values nodes)))

  unfoldable pub method_row : String × MethodMetrics → List String
  method_row (name, m) =
      name
      ∷ T.show m.call_count
      ∷ T.show m.success_count
      ∷ T.show m.failure_count
      ∷ format_latency_us T m.p50_latency_us
      ∷ format_latency_us T m.p95_latency_us
      ∷ format_latency_us T m.p99_latency_us
      ∷ []

  unfoldable pub draw_methods_table : List (String × MethodMetrics) → Panel
  draw_methods_table methods =
      methods_table
        (map method_row (sort_desc (λ (e : String × MethodMetrics). e.1.call_count) methods))

  abbrev pub is_orchestrator : Option ServerType → Bool
  is_orchestrator none = false
  is_orchestrator (some node) = false
  is_orchestrator (some orchestrator) = true

  -- The number of areas that the content is split into, and a panel in one of them: `none` is an index
  -- out of range, a panic.
  abbrev pub in_area : ℕ → ℕ → Panel → Option Panel
  in_area areas i panel = if ltb i areas then some panel else none

  abbrev pub both_panels : Option Panel → Option Panel → Option (List Panel)
  both_panels none b = none
  both_panels (some a) none = none
  both_panels (some a) (some b) = some (a ∷ b ∷ [])

  abbrev pub one_panel : Option Panel → Option (List Panel)
  one_panel none = none
  one_panel (some a) = some (a ∷ [])

  -- The areas that the content is split into, and the one that the methods get from an orchestrator.
  abbrev pub content_areas : Bool → Option (List (String × NodeMetrics)) → ℕ
  content_areas true (some nodes) = 2
  content_areas true none = 1
  content_areas false nodes = 1

  abbrev pub methods_area : Option (List (String × NodeMetrics)) → ℕ
  methods_area none = 0
  methods_area (some nodes) = 1

  -- The content below the summary, in `areas`.
  abbrev pub draw_tables :
      ℕ → ℕ → Bool → Option (List (String × NodeMetrics)) → MetricsSnapshot → Option (List Panel)
  draw_tables areas now_ms true (some nodes) metrics =
      both_panels (in_area areas 0 (draw_nodes_table now_ms nodes))
        (in_area areas (methods_area (some nodes)) (draw_methods_table metrics.methods))
  draw_tables areas now_ms true none metrics =
      one_panel (in_area areas (methods_area none) (draw_methods_table metrics.methods))
  draw_tables areas now_ms false nodes metrics =
      one_panel (in_area areas 0 (draw_methods_table metrics.methods))

  unfoldable pub draw_content : ℕ → Bool → MetricsSnapshot → Option (List Panel)
  draw_content now_ms orch metrics =
      draw_tables (content_areas orch metrics.nodes) now_ms orch metrics.nodes metrics

  abbrev pub under : Panel → Panel → Option (List Panel) → Option (List Panel)
  under a b none = none
  under a b (some panels) = some (a ∷ b ∷ panels)

  abbrev pub draw_with : ℕ → TopApp → Option MetricsSnapshot → Option String → Option (List Panel)
  draw_with now_ms app (some metrics) error =
      under (draw_title_bar app) (draw_summary metrics)
        (draw_content now_ms (is_orchestrator app.server_type) metrics)
  draw_with now_ms app none (some error) = some (draw_title_bar app ∷ error_panel error ∷ [])
  draw_with now_ms app none none = some (draw_title_bar app ∷ loading ∷ [])

  -- The panels of the screen, from the top.
  unfoldable pub draw : ℕ → TopApp → Option (List Panel)
  draw now_ms app = draw_with now_ms app app.current_metrics app.error_message

-- One turn of the loop: the time at its start, the time after an update, what an update fetches, and the
-- key that is read before the time is up, if any.
pub record Turn : Type 0 where
  pub now : ℕ
  pub updated : ℕ
  pub metrics : Fetched MetricsSnapshot
  pub key : Option KeyCode

abbrev pub on_key : Option KeyCode → TopApp → TopApp
on_key none app = app
on_key (some k) app = handle_key_event k app

-- The state after a turn, with the time of the last tick.
unfoldable pub turn : Turn → ℕ → TopApp → ℕ × TopApp
turn t last_tick app =
    if leb (app.interval_ms * 1000000) (t.now - last_tick)
    then (t.updated, on_key t.key (update_metrics t.updated t.metrics app))
    else (last_tick, on_key t.key app)

-- The loop over a number of turns: it stops where the application quits.
unfoldable pub run_turns : List Turn → ℕ → TopApp → ℕ × TopApp
run_turns [] last_tick app = (last_tick, app)
run_turns (t ∷ ts) last_tick app = elim app.should_quit [
  | true ↦ (last_tick, app)
  | false ↦ let (tick, app') = turn t last_tick app in run_turns ts tick app'
]

-- `run_top`, once the terminal and the client are there.
unfoldable pub run_top : String → ℕ → Fetched ServerType → ℕ → List Turn → TopApp
run_top server_address interval_ms info start turns =
    (run_turns turns start (detect_server_type info (new_app server_address interval_ms))).1
