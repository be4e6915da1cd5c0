-- ===== src/Cli/Service.antt =====
-- The service manager's actions of src/main.rs: the files and the commands of `punchgate up`,
-- `down`, `status` and `logs`, on Linux and on macOS.
pub mod Files
pub mod Installed
use Prim.Native.String.{◌++◌ as push_str}
use punchgate.Common.{
  ℕ, Bool, true, false, Option, none, some, String, List, [], ◌∷◌, ◌++◌, Result, ok, err, ◌>>=◌,
  map_err, if◌then◌else◌,
}
use punchgate.Net.{Libp2p}
use punchgate.Collections.HashMap.{HashMap}
use punchgate.Collections.Sort.{sort_by}
use punchgate.State.Tunnel.Addresses.{text_le}
use punchgate.Specs.Addr.{IpText}
use punchgate.Specs.Port.{print_digits}
use punchgate.Cli.Xml.{xml_escape}
use punchgate.Cli.Templates.{
  service_label, concat_texts, render_systemd_service, render_launchd_plist,
}
use punchgate.Cli.Environment.{Paths, Cli, render_env_file, service_env_map}

-- What the source calls on the machine, with the state that the calls change. `uid` is what
-- `current_uid` reads of `id -u`; an error stands for its text.
pub record Host (paths : Paths) : Type 1 where
  pub State : Type 0
  pub path : String → paths.FilePath
  pub home : Option paths.FilePath
  pub current_exe : Result String paths.FilePath
  pub uid : Result String ℕ
  pub exists : paths.FilePath → State → Bool
  pub create_dir_all : paths.FilePath → State → Result String (Unit {0}) × State
  pub write : paths.FilePath → String → State → Result String (Unit {0}) × State
  pub remove_file : paths.FilePath → State → Result String (Unit {0}) × State
  -- Whether the command ended with success, where it could be run.
  pub status : List String → State → Result String Bool × State

pub data OsKind : Type 0 where
  macos linux : OsKind

pub data ServiceCommand : Type 0 where
  up down show_status : ServiceCommand
  logs : Bool → ℕ → ServiceCommand

pub data ServiceError : Type 0 where
  home_not_set : ServiceError
  call_failed : String → ServiceError
  command_failed : List String → ServiceError

-- One call that changes something.
pub data Call (FilePath : Type 0) : Type 0 where
  make_dir : FilePath → Call FilePath
  write_file : FilePath → String → Call FilePath
  remove_if_there : FilePath → Call FilePath
  run_checked run_allow_failure : List String → Call FilePath

abbrev pub systemd_service_name : String
systemd_service_name = "punchgate.service"

-- A number of 64 bits has 20 digits at most.
abbrev pub number_text : ℕ → String
number_text n = print_digits 20 n String.[]

module _ (paths : Paths) where
  open paths use {FilePath, join, display}

  module _ (host : Host paths) where
    open host use {State, path, home, current_exe, uid}

    abbrev pub Outcome : Type 0
    Outcome = Result ServiceError (Unit {0}) × State

    -- The error of a file system call, with its context.
    unfoldable pub called : Result String (Unit {0}) × State → Outcome
    called (r, s) = (map_err call_failed r, s)

    unfoldable pub checked : List String → Result String Bool × State → Outcome
    checked args (err e, s) = (err (call_failed e), s)
    checked args (ok false, s) = (err (command_failed args), s)
    checked args (ok true, s) = (ok tt, s)

    unfoldable pub allowed : Result String Bool × State → Outcome
    allowed (err e, s) = (err (call_failed e), s)
    allowed (ok success, s) = (ok tt, s)

    unfoldable pub perform : Call FilePath → State → Outcome
    unfolding called checked allowed
    perform (make_dir p) s = called (host.create_dir_all p s)
    perform (write_file p text) s = called (host.write p text s)
    perform (remove_if_there p) s =
        if host.exists p s then called (host.remove_file p s) else (ok tt, s)
    perform (run_checked args) s = checked args (host.status args s)
    perform (run_allow_failure args) s = allowed (host.status args s)

    -- `?` behind a call.
    abbrev pub go_on : (State → Outcome) → Outcome → Outcome
    go_on later (err e, s) = (err e, s)
    go_on later (ok _, s) = later s

    -- The calls of an action in their order. Where an argument cannot be computed, its error
    -- stands in place of the call.
    unfoldable pub run_plan : List (Result ServiceError (Call FilePath)) → State → Outcome
    unfolding perform
    run_plan [] s = (ok tt, s)
    run_plan (err e ∷ calls) s = (err e, s)
    run_plan (ok call ∷ calls) s = go_on (run_plan calls) (perform call s)

    unfoldable pub app_config_dir : FilePath → FilePath
    app_config_dir home = join (join home (path ".config")) (path "punchgate")

    unfoldable pub app_env_file : FilePath → FilePath
    unfolding app_config_dir
    app_env_file home = join (app_config_dir home) (path "punchgate.env")

    unfoldable pub systemd_user_dir : FilePath → FilePath
    systemd_user_dir home = join (join (join home (path ".config")) (path "systemd")) (path "user")

    unfoldable pub launch_agents_dir : FilePath → FilePath
    launch_agents_dir home = join (join home (path "Library")) (path "LaunchAgents")

    unfoldable pub logs_dir : FilePath → FilePath
    logs_dir home = join (join home (path "Library")) (path "Logs")

    -- The unit, or the launch agent.
    unfoldable pub service_file : OsKind → FilePath → FilePath
    unfolding systemd_user_dir launch_agents_dir
    service_file linux home = join (systemd_user_dir home) (path systemd_service_name)
    service_file macos home =
        join (launch_agents_dir home) (path (concat_texts (service_label ∷ ".plist" ∷ [])))

    module _ (net : Libp2p) (ip : IpText) (cli : Cli paths net) (rust_log : Option String) where
      unfoldable pub service_text : OsKind → FilePath → FilePath → String
      unfolding render_systemd_service render_launchd_plist service_env_map logs_dir
      service_text linux home exe = render_systemd_service paths exe
      service_text macos home exe =
          render_launchd_plist paths exe (join (logs_dir home) (path "punchgate.log"))
            (join (logs_dir home) (path "punchgate.err.log"))
            (service_env_map paths net ip cli rust_log)

      -- The writes of `up`, on both systems.
      unfoldable pub write_env : FilePath → Result ServiceError (Call FilePath)
      unfolding app_env_file render_env_file
      write_env home =
          map_err call_failed (render_env_file paths net ip cli rust_log)
          >>= (λ text. ok (write_file (app_env_file home) text))

      unfoldable pub write_service : OsKind → FilePath → Result ServiceError (Call FilePath)
      unfolding service_file service_text
      write_service os home =
          map_err call_failed current_exe
          >>= (λ exe. ok (write_file (service_file os home) (service_text os home exe)))

      unfoldable pub linux_plan :
          FilePath → ServiceCommand → List (Result ServiceError (Call FilePath))
      unfolding systemd_user_dir app_config_dir service_file write_env write_service
      linux_plan home up =
          ok (make_dir (systemd_user_dir home))
          ∷ ok (make_dir (app_config_dir home))
          ∷ write_env home
          ∷ write_service linux home
          ∷ ok (run_checked ("systemctl" ∷ "--user" ∷ "daemon-reload" ∷ []))
          ∷ ok (
              run_checked ("systemctl" ∷ "--user" ∷ "enable" ∷ "--now" ∷ systemd_service_name ∷ []))
          ∷ []
      linux_plan home down =
          ok (
            run_allow_failure
              ("systemctl" ∷ "--user" ∷ "disable" ∷ "--now" ∷ systemd_service_name ∷ []))
          ∷ ok (remove_if_there (service_file linux home))
          ∷ ok (run_allow_failure ("systemctl" ∷ "--user" ∷ "daemon-reload" ∷ []))
          ∷ []
      linux_plan home show_status =
          ok (
            run_checked
              ("systemctl" ∷ "--user" ∷ "--no-pager" ∷ "status" ∷ systemd_service_name ∷ []))
          ∷ []
      linux_plan home (logs follow lines) =
          let args =
            "journalctl"
            ∷ "--user"
            ∷ "-u"
            ∷ systemd_service_name
            ∷ "--no-pager"
            ∷ "-n"
            ∷ number_text lines
            ∷ [] in
          ok (run_checked (if follow then args ++ "-f" ∷ [] else args)) ∷ []

      -- `domain` is `gui/` and the user's id.
      unfoldable pub macos_plan :
          FilePath → String → ServiceCommand → List (Result ServiceError (Call FilePath))
      unfolding launch_agents_dir logs_dir app_config_dir service_file write_env write_service
      macos_plan home domain up =
          let label_handle = concat_texts (domain ∷ "/" ∷ service_label ∷ []) in
          let plist = display (service_file macos home) in
          ok (make_dir (launch_agents_dir home))
          ∷ ok (make_dir (logs_dir home))
          ∷ ok (make_dir (app_config_dir home))
          ∷ write_env home
          ∷ write_service macos home
          ∷ ok (run_allow_failure ("launchctl" ∷ "bootout" ∷ domain ∷ plist ∷ []))
          ∷ ok (run_checked ("launchctl" ∷ "bootstrap" ∷ domain ∷ plist ∷ []))
          ∷ ok (run_checked ("launchctl" ∷ "enable" ∷ label_handle ∷ []))
          ∷ ok (run_checked ("launchctl" ∷ "kickstart" ∷ "-k" ∷ label_handle ∷ []))
          ∷ []
      macos_plan home domain down =
          let label_handle = concat_texts (domain ∷ "/" ∷ service_label ∷ []) in
          let plist = display (service_file macos home) in
          ok (run_allow_failure ("launchctl" ∷ "bootout" ∷ domain ∷ plist ∷ []))
          ∷ ok (run_allow_failure ("launchctl" ∷ "disable" ∷ label_handle ∷ []))
          ∷ ok (remove_if_there (service_file macos home))
          ∷ []
      macos_plan home domain show_status =
          ok (
            run_checked
              ("launchctl" ∷ "print" ∷ concat_texts (domain ∷ "/" ∷ service_label ∷ []) ∷ []))
          ∷ []
      macos_plan home domain (logs follow lines) =
          let log_out = display (join (logs_dir home) (path "punchgate.log")) in
          ok (
            run_checked (
              "tail"
              ∷ "-n"
              ∷ number_text lines
              ∷ (if follow then "-f" ∷ log_out ∷ [] else log_out ∷ [])))
          ∷ []

      -- On macOS the user's id is read ahead of everything else.
      unfoldable pub with_uid :
          Result String ℕ → FilePath → ServiceCommand → List (Result ServiceError (Call FilePath))
      unfolding macos_plan
      with_uid (err e) home command = err (call_failed e) ∷ []
      with_uid (ok id) home command =
          macos_plan home (concat_texts ("gui/" ∷ number_text id ∷ [])) command

      unfoldable pub plan :
          OsKind → FilePath → ServiceCommand → List (Result ServiceError (Call FilePath))
      unfolding linux_plan with_uid
      plan linux home command = linux_plan home command
      plan macos home command = with_uid uid home command

      unfoldable pub at_home : OsKind → ServiceCommand → State → Option FilePath → Outcome
      unfolding run_plan plan
      at_home os command s none = (err home_not_set, s)
      at_home os command s (some dir) = run_plan (plan os dir command) s

      unfoldable pub run_service_command : OsKind → ServiceCommand → State → Outcome
      unfolding at_home
      run_service_command os command s = at_home os command s home
