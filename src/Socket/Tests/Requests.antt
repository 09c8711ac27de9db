-- ===== src/Socket/Tests/Requests.antt =====
-- Requests to a daemon with the session of Session/Tests/Demo.antt, and the theorems at them.
use text.Mathlib.Text.{◌==◌ as str_eq}
use forgetty.Base.{
  ℕ, ◌+◌, ◌≡◌, refl, String, List, [], ◌∷◌, ◌++◌, Bool, true, false, Option, none, some, arith, ap,
  if◌then◌else◌, length,
}
use forgetty.Session.State.{
  Env, SpawnRequest, PtyBridge, SessionManagerInner, Result, ok, err, pty, workspace_out_of_bounds,
  new, new_default,
}
use forgetty.Session.Registry.{spawn_bridge}
use forgetty.Session.Workspaces.{create_workspace, rename_workspace}
use forgetty.Session.Tabs.{create_tab, create_tab_with_pane_id}
use forgetty.Session.Panes.{pane_info}
use forgetty.Session.Invariant.{IsValid}
use forgetty.Session.Run.{Reach, start}
use forgetty.Session.Tests.Demo.{demo, demo_env, demo-IsValid}
use forgetty.Sync.Registry.{saved}
use forgetty.Socket.Json.{Value, integer, string, get, as_str, as_u64, json_object}
use forgetty.Socket.Protocol.{
  Request, invalid_params, internal_error, operation_failed, pane_not_found, failure,
}
use forgetty.Socket.Handlers.{Host}
use forgetty.Socket.Handlers.Devices.{SyncHost}
use forgetty.Socket.Handlers.Tabs.{handle_close_tab}
use forgetty.Socket.Handlers.Workspaces.{handle_create_workspace, handle_rename_workspace}
use forgetty.Socket.Dispatch.{Daemon, route, dispatch}
use forgetty.Socket.Dispatch.Served.{Served}
use forgetty.Socket.Dispatch.Reach.{AreNew, dispatch-Reach}
use forgetty.Socket.Dispatch.Errors.{
  is_atomic, dispatch-error, bare_workspace, handle_create_workspace-error,
}

-- The UUIDs 3 and 9 have a text.
abbrev uuid_of : String → Option ℕ
uuid_of text = if str_eq text "three" then some 3 else (if str_eq text "nine" then some 9 else none)

-- The second call of a request draws ids of its own.
abbrev next_env : Env
next_env = record demo_env { new_pane_id = λ n. 150 + n; new_uuid = λ n. 170 + n }

abbrev pub host : Host
host = record {
  parse_str = uuid_of;
  to_string = λ n. "uuid";
  decode_base64 = λ text. none;
  is_dir = λ path. true;
  f32_of = λ n. 0;
  env = demo_env;
  env_next = next_env;
  resized = ok tt;
  written = ok tt;
  vintr = λ handle. none;
  my_pid = 1;
  foreground = none;
  comm = none;
  save_failure = none;
}

abbrev pub sync_host : SyncHost
sync_host = record {
  device_number = λ text. 7;
  device_text = λ n. "device";
  now = 0;
  saving = saved;
  hostname = none;
  qr_to_png = λ node. none;
  encode_base64 = λ bytes. "";
}

abbrev pub daemon_of : SessionManagerInner → Daemon
daemon_of s = record { sm = s; sync_endpoint = none; session_id = none; active_file = none }

abbrev pub request_of : String → List (String × Value) → Request
request_of method params = record {
  jsonrpc = "2.0";
  method = method;
  params = json_object params;
  id = some (integer 1);
}

abbrev rename_out_of_range : Request
rename_out_of_range =
    request_of "rename_workspace" (("workspace_idx", integer 7) ∷ ("name", string "x") ∷ [])

-- A pane that the registry does not have.
unknown_pane :
    (dispatch host sync_host
      (request_of "close_tab" (("pane_id", string "nine") ∷ []))
      (daemon_of demo)).1.error
    ≡ some (record { code = invalid_params; message = pane_not_found "nine" })
unfolding dispatch handle_close_tab pane_info get as_str json_object failure forgetty.Base.lookup
unknown_pane = refl

rename_fails :
    (dispatch host sync_host rename_out_of_range (daemon_of demo)).1.error
    ≡ some (record {
      code = internal_error;
      message = operation_failed "rename_workspace" (workspace_out_of_bounds 7 2);
    })
unfolding dispatch handle_rename_workspace rename_workspace get as_str as_u64 json_object failure
rename_fails = refl

rename-is_atomic : is_atomic (route "rename_workspace") ≡ true
unfolding route
rename-is_atomic = refl

dispatch-error_example :
    record ((dispatch host sync_host rename_out_of_range (daemon_of demo)).0.sm) { os = demo.os }
    ≡ demo
dispatch-error_example =
    dispatch-error host sync_host rename_out_of_range (daemon_of demo) _ demo-IsValid
      rename-is_atomic rename_fails

ids-AreNew : AreNew host (new 10)
unfolding new new_default
ids-AreNew = record {
  first = record {
    panes_differ = λ n m ne. ground arith;
    uuids_differ = λ n m ne. ground arith;
    panes_new = λ n. refl;
    uuids_new = λ n. refl;
  };
  next = record {
    panes_differ = λ n m ne. ground arith;
    uuids_differ = λ n m ne. ground arith;
    panes_new = λ n. refl;
    uuids_new = λ n. refl;
  };
}

abbrev create : Request
create = request_of "create_workspace" []

dispatch-Reach_example :
    Reach 10 ((dispatch host sync_host create (daemon_of (new 10))).0.sm)
    × IsValid ((dispatch host sync_host create (daemon_of (new 10))).0.sm)
dispatch-Reach_example = dispatch-Reach host sync_host create (daemon_of (new 10)) ids-AreNew start

-- No process can be spawned for the first tab.
abbrev no_spawn : ℕ → SpawnRequest → Result PtyBridge
no_spawn n request = err (pty "fork failed")

abbrev poor_host : Host
poor_host = record host { env_next = record next_env { spawn = no_spawn } }

create_fails :
    (handle_create_workspace poor_host create demo).1.error
    ≡ some (record {
      code = internal_error;
      message = operation_failed "create_workspace: create_tab" (pty "fork failed");
    })
unfolding handle_create_workspace create_workspace create_tab create_tab_with_pane_id spawn_bridge
    get json_object failure
create_fails = refl

handle_create_workspace-error_example :
    ((handle_create_workspace poor_host create demo).0.workspaces
      ≡ demo.workspaces ++ bare_workspace poor_host create ∷ [])
    × ((handle_create_workspace poor_host create demo).0.panes ≡ demo.panes)
handle_create_workspace-error_example =
    handle_create_workspace-error poor_host create demo _ create_fails
