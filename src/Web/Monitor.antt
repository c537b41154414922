-- ===== src/Web/Monitor.antt =====
-- internal/web/handlers.go: the handlers of the API monitor and the status.
use tcl_script_runner.Prelude.{map}
use tcl_script_runner.Becs.Recorder.{entries, clear}
use tcl_script_runner.Runner.Host.{Host, Sys}
use tcl_script_runner.Runner.Jobs.{is_busy}
use tcl_script_runner.Web.View.{to_log_view}
use tcl_script_runner.Web.App.{
  Services, App, Handled, Response, api_monitor, api_log, status, render,
}

module _ (H : Host) where
  unfoldable pub show_monitor : App H → Response
  show_monitor a = render H a api_monitor

  unfoldable pub status_fragment : App H → Response
  status_fragment a = status (is_busy H a.run)

module _ (H : Host) (V : Services H) where
  unfoldable pub api_log_fragment : Sys H → Response
  api_log_fragment s = api_log (map (to_log_view V.formats) (entries s.log))

  unfoldable pub api_log_clear : App H → Sys H → Handled H
  unfolding api_log_fragment
  api_log_clear a s = let s' = record s { log = clear s.log } in (api_log_fragment s', a, s')
