-- ===== src/Supervisor/Ops.antt =====
-- The process operations that the supervisor uses, and its steps over them: each call is kept with
-- its result (src/supervisor/src/lib.rs).
use Prim.Native.String.{◌++◌}
use codex_warden.Prelude.{ℕ, String, Bool, true, List, ◌∷◌, Result, ok, err}

-- Durations are in milliseconds.
pub record SupervisorConfig : Type 0 where
  pub standalone_codex : String
  pub socket_path : String
  pub gui_executable : String
  pub restart_gui_on_initialize : Bool
  pub startup_timeout : ℕ
  pub graceful_quit_timeout : ℕ
  pub monitor_interval : ℕ

-- `Default`, under the home directory.
abbrev pub default_config : String → SupervisorConfig
default_config home = record {
  standalone_codex = home ++ "/.codex/packages/standalone/current/codex";
  socket_path = home ++ "/.codex/app-server-control/app-server-control.sock";
  gui_executable = "/Applications/ChatGPT.app/Contents/MacOS/ChatGPT";
  restart_gui_on_initialize = true;
  startup_timeout = 10000;
  graceful_quit_timeout = 8000;
  monitor_interval = 5000;
}

pub data DaemonOwnership : Type 0 where
  attached started : DaemonOwnership

pub record SupervisionState : Type 0 where
  pub daemon_ownership : DaemonOwnership
  pub daemon_version : String
  pub gui_attached : Bool
  pub daemon_left_running : Bool

pub data MonitorEvent : Type 0 where
  healthy daemon_restarted gui_restarted : MonitorEvent
  incompatible : String → MonitorEvent
  user_action_required : String → MonitorEvent

pub data SupervisorError : Type 0 where
  missing_standalone : (path : String) → SupervisorError
  missing_gui : (path : String) → SupervisorError
  daemon_command : String → SupervisorError
  incompatible_version : String → SupervisorError
  attachment_unverified : String → SupervisorError
  user_action_required : String → SupervisorError
  inspection : String → SupervisorError

pub record CommandOutput : Type 0 where
  pub success : Bool
  pub stdout : String
  pub stderr : String

-- The trait `ProcessOps`, the clock and `time::sleep`, over an unknown world.
pub record ProcessOps (W : Type 0) : Type 0 where
  pub exists_path : String → W → Bool × W
  pub ps_environment : W → Result String String × W
  pub socket_users : String → W → Result String String × W
  pub output : String → List String → W → Result CommandOutput String × W
  pub spawn : String → List String → List (String × String) → W → Result (Unit {0}) String × W
  pub graceful_quit_chatgpt : W → Result (Unit {0}) String × W
  pub now : W → ℕ
  pub sleep : ℕ → W → W

-- A call of the trait, with its result.
pub data Call : Type 0 where
  existed : String → Bool → Call
  listed : Result String String → Call
  used : String → Result String String → Call
  ran : String → List String → Result CommandOutput String → Call
  spawned : String → List String → List (String × String) → Result (Unit {0}) String → Call
  quit : Result (Unit {0}) String → Call

-- The calls so far are kept latest first.
pub record Session (W : Type 0) : Type 0 where
  pub world : W
  pub calls : List Call

-- How a step ends; a loop that runs out of rounds has stalled.
pub data Outcome (A : Type 0) : Type 0 where
  done : A → Outcome A
  raised : SupervisorError → Outcome A
  stalled : Outcome A

abbrev pub Step : Type 0 → Type 0 → Type 0
Step W A = Session W → Outcome A × Session W

module _ {W : Type 0} where
  module _ {A : Type 0} where
    unfoldable pub pure : A → Step W A
    pure a s = (done a, s)

    unfoldable pub raise : SupervisorError → Step W A
    raise e s = (raised e, s)

    unfoldable pub stall : Step W A
    stall s = (stalled, s)

    -- `map_err(e)?`.
    unfoldable pub try_as : (String → SupervisorError) → Result A String → Step W A
    try_as e (ok a) s = (done a, s)
    try_as e (err text) s = (raised (e text), s)

    -- A call of the trait.
    unfoldable pub perform : (W → A × W) → (A → Call) → Step W A
    perform call log s =
        let (a, w) = call s.world in (done a, record { world = w; calls = log a ∷ s.calls })

  module _ {A B : Type 0} where
    abbrev pub continue : Outcome A × Session W → (A → Step W B) → Outcome B × Session W
    continue (done a, s) f = f a s
    continue (raised e, s) f = (raised e, s)
    continue (stalled, s) f = (stalled, s)

    infixl 10 ◌>>=◌ ◌>>◌
    unfoldable pub ◌>>=◌ : Step W A → (A → Step W B) → Step W B
    unfolding pure raise stall try_as perform
    ◌>>=◌ m f s = continue (m s) f

    abbrev pub ◌>>◌ : Step W A → Step W B → Step W B
    m >> n = m >>= λ _. n

  module _ (ops : ProcessOps W) where
    unfoldable pub exists_path : String → Step W Bool
    unfolding perform
    exists_path path = perform (ops.exists_path path) (existed path)

    unfoldable pub ps_environment : Step W (Result String String)
    unfolding perform
    ps_environment = perform ops.ps_environment listed

    unfoldable pub socket_users : String → Step W (Result String String)
    unfolding perform
    socket_users socket = perform (ops.socket_users socket) (used socket)

    unfoldable pub output : String → List String → Step W (Result CommandOutput String)
    unfolding perform
    output program args = perform (ops.output program args) (ran program args)

    unfoldable pub spawn :
        String → List String → List (String × String) → Step W (Result (Unit {0}) String)
    unfolding perform
    spawn program args env = perform (ops.spawn program args env) (spawned program args env)

    unfoldable pub graceful_quit_chatgpt : Step W (Result (Unit {0}) String)
    unfolding perform
    graceful_quit_chatgpt = perform ops.graceful_quit_chatgpt quit

    unfoldable pub now : Step W ℕ
    now s = (done (ops.now s.world), s)

    unfoldable pub sleep : ℕ → Step W (Unit {0})
    sleep d s = (done tt, record s { world = ops.sleep d s.world })
