-- ===== src/Iqm/Backend.antt =====
-- runner/src/backend_iqm.rs: the requests of `IqmBackend` for tasks. What the server answers is an
-- input; a request to the server, and what is sent to the launcher and to the monitor, are outputs.
-- The texts of the HTTP library's errors come with the answers.
pub mod Single
use qscheduler.Base.{ℕ, String, Bool, Option, none, some, List, [], ◌∷◌, if◌then◌else◌}
use Prim.Native.String.{◌++◌}
use qscheduler.Task.{TaskState, TaskKind, circuit, pulse, failed}
use qscheduler.Launcher.Message.{FromBackendMessage, task_submitted, task_state_change}
use qscheduler.Iqm.Monitor.{MonitorCommand, new_task, cancel, stop}

pub record IqmBackendConfig : Type 0 where
  pub machine_name : String
  pub url : String
  pub token : String
  pub poll_interval : ℕ

pub data Method : Type 0 where
  method_get method_post : Method

pub record Request : Type 0 where
  pub method : Method
  pub url : String
  pub headers : List (String × String)

-- The suffix of the route, and the type of the content.
unfoldable pub submit_route : TaskKind → String × String
submit_route circuit = ("circuit", "application/json; charset=UTF-8")
submit_route pulse = ("run", "application/protobuf")

abbrev pub accept_or_json : Option String → String
accept_or_json none = "application/json"
accept_or_json (some accept) = accept

abbrev pub content_header : Option String → List (String × String)
content_header none = []
content_header (some content_type) = ("Content-Type", content_type) ∷ []

unfoldable pub setup_qc_request : IqmBackendConfig → Method → String → Option String → Request
setup_qc_request config method end_point accept = record {
  method = method;
  url = config.url ++ "/api/v1/quantum-computers/" ++ config.machine_name ++ "/" ++ end_point;
  headers = ("Authorization", "Bearer " ++ config.token) ∷ ("Accept", accept_or_json accept) ∷ [];
}

abbrev pub with_end_point : String → Option String → String
with_end_point url none = url
with_end_point url (some end_point) = url ++ "/" ++ end_point

unfoldable pub setup_calibration_request :
    IqmBackendConfig → Method → String → Option String → Request
setup_calibration_request config method calibration_id end_point = record {
  method = method;
  url =
      with_end_point
        (config.url ++ "/api/v1/calibration-sets/" ++ config.machine_name ++ "/" ++ calibration_id)
        end_point;
  headers = ("Authorization", "Bearer " ++ config.token) ∷ ("Accept", "application/json") ∷ [];
}

unfoldable pub setup_job_request :
    IqmBackendConfig → Method → String → Option String → Option String → Request
setup_job_request config method end_point content_type accept = record {
  method = method;
  url = config.url ++ "/api/v1/jobs/" ++ end_point;
  headers =
      ("Authorization", "Bearer " ++ config.token)
      ∷ ("Accept", accept_or_json accept)
      ∷ content_header content_type;
}

-- What is sent: to the launcher and to the monitor.
pub record Sent : Type 0 where
  pub messages : List FromBackendMessage
  pub commands : List MonitorCommand

-- A failure without an execution, at the time of day.
unfoldable pub send_task_error : ℕ → ℕ → String → Sent
send_task_error utc id message = record {
  messages = task_state_change id (failed (record { consumed = 0; timestamp = utc }) message) ∷ [];
  commands = [];
}

-- The answer to a submission: no answer, a status that is no success and its body, a body that
-- cannot be parsed, or the id of the new job.
pub data SubmitAnswer : Type 0 where
  request_failed : String → SubmitAnswer
  http_error : String → String → SubmitAnswer
  unparsable : String → SubmitAnswer
  job_created : String → SubmitAnswer

unfoldable pub submit_request : IqmBackendConfig → TaskKind → Request
submit_request config kind =
    let (route, content_type) = submit_route kind in
    setup_job_request config method_post (config.machine_name ++ "/" ++ route) (some content_type)
      none

unfoldable pub submit_task : ℕ → ℕ → SubmitAnswer → Sent
submit_task utc id (request_failed e) = send_task_error utc id ("IQM request failed: " ++ e)
submit_task utc id (http_error status body) =
    send_task_error utc id ("IQM backend HTTP " ++ status ++ ": " ++ body)
submit_task utc id (unparsable e) = send_task_error utc id ("Parsing IQM backend failed: " ++ e)
submit_task utc id (job_created job) = record {
  messages = task_submitted id job ∷ [];
  commands = new_task id job ∷ [];
}

unfoldable pub cancel_task : ℕ → String → List MonitorCommand
cancel_task id backend_id = cancel id backend_id ∷ []

unfoldable pub resume_task : ℕ → String → Bool → List MonitorCommand
resume_task id backend_id also_cancel =
    new_task id backend_id ∷ (if also_cancel then cancel_task id backend_id else [])

unfoldable pub stop_monitor : List MonitorCommand
stop_monitor = stop ∷ []
