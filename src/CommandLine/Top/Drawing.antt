-- ===== src/CommandLine/Top/Drawing.antt =====
-- What the monitor draws, and what it keeps.
use madrpc.Prelude.{ℕ, ◌≡◌, refl, ap, String, Bool, true, false, Option, none, some, List, ◌∷◌}
use madrpc.Float.{F64}
use madrpc.Metrics.Recording.{MetricsSnapshot, NodeMetrics}
use madrpc.CommandLine.Top.{
  Texts, TopApp, Panel, content_areas, draw_tables, draw_content, draw_with, draw, draw_title_bar,
  draw_summary, under, is_orchestrator,
}

module _ (F : F64) (T : Texts) where
  tables-drawn :
      (now : ℕ) (orch : Bool) (nodes : Option (List (String × NodeMetrics)))
      (metrics : MetricsSnapshot)
      → (panels : List Panel) × (draw_tables F T
            (content_areas F T orch nodes)
            now
            orch
            nodes
            metrics
          ≡ some panels)
  tables-drawn now true none metrics = (_, refl)
  tables-drawn now true (some nodes) metrics = (_, refl)
  tables-drawn now false nodes metrics = (_, refl)

  -- The screen is drawn without a panic in every state: no table is put into an area that is not there.
  pub draw-drawn :
      (now : ℕ) (app : TopApp)
      → (panels : List Panel) × (draw F T now app ≡ some (draw_title_bar F T app ∷ panels))
  unfolding draw draw_content
  draw-drawn now app = by_state app.current_metrics app.error_message
    where
      by_state :
          (m : Option MetricsSnapshot) (e : Option String)
          → (panels : List Panel) × (draw_with F T now app m e
              ≡ some (draw_title_bar F T app ∷ panels))
      by_state (some metrics) e =
          let (panels, drawn) =
            tables-drawn now (is_orchestrator F T app.server_type) metrics.nodes metrics in
          (
            draw_summary F T metrics ∷ panels,
            ap (under F T (draw_title_bar F T app) (draw_summary F T metrics)) drawn,
          )
      by_state none (some e) = (_, refl)
      by_state none none = (_, refl)
