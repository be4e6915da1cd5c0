-- ===== src/Cli/Service/Installed.antt =====
-- What `punchgate up` of src/main.rs has written when it tells the service manager.
use punchgate.Common.{
  ℕ, ◌≡◌, ◌≢◌, ap, Option, some, String, [], ◌∷◌, Result, ok, err, map_err, ◌>>=◌, subst,
}
use punchgate.Net.{Libp2p}
use punchgate.Specs.Addr.{IpText}
use punchgate.Cli.Environment.{Paths, Cli, render_env_file}
use punchgate.Cli.Service.Files.{HostLaws, Plan, HasText, Passes, writes-Passes, failed-Passes}
use punchgate.Cli.Templates.{service_label, concat_texts}
use punchgate.Cli.Service.{
  systemd_service_name, Host, OsKind, macos, linux, up, run_checked, run_allow_failure, call_failed,
  write_file, Outcome, run_plan, app_env_file, service_file, service_text, write_env, write_service,
  linux_plan, macos_plan, plan, run_service_command, with_uid, at_home, number_text,
}

module _ (paths : Paths) (host : Host paths) (laws : HostLaws host) where
  open paths use {FilePath, display}
  open host use {State, uid}
  open laws use {text_at}

  module _ (net : Libp2p) (ip : IpText) (cli : Cli paths net) (rust_log : Option String)
      (home exe : FilePath) (env_text : String) where
    -- Both files have the texts of the arguments.
    abbrev pub IsInstalled : OsKind → State → Type 0
    IsInstalled os t =
        HasText paths host laws (app_env_file paths host home) env_text t
        × HasText paths host laws (service_file paths host os home)
            (service_text paths host net ip cli rust_log os home exe) t

    write_env_done :
        render_env_file paths net ip cli rust_log ≡ ok env_text
        → write_env paths host net ip cli rust_log home
          ≡ ok (write_file (app_env_file paths host home) env_text)
    unfolding write_env
    write_env_done r =
        ap
          (λ c.
            map_err call_failed c >>= (λ text. ok (write_file (app_env_file paths host home) text)))
          r

    write_service_done :
        (os : OsKind)
        → host.current_exe ≡ ok exe
        → write_service paths host net ip cli rust_log os home
          ≡ ok (
              write_file
                (service_file paths host os home)
                (service_text paths host net ip cli rust_log os home exe))
    unfolding write_service
    write_service_done os x =
        ap
          (λ c. map_err call_failed c >>= (λ exe'. ok (
            write_file (service_file paths host os home)
              (service_text paths host net ip cli rust_log os home exe'))))
          x

    -- What the service manager is told, by its command lines; on macOS for the user of the id.
    abbrev pub manager_calls : OsKind → Result String ℕ → Plan paths host laws
    manager_calls linux u =
        ok (run_checked ("systemctl" ∷ "--user" ∷ "daemon-reload" ∷ []))
        ∷ ok (run_checked ("systemctl" ∷ "--user" ∷ "enable" ∷ "--now" ∷ systemd_service_name ∷ []))
        ∷ []
    manager_calls macos (err e) = []
    manager_calls macos (ok id) =
        let domain = concat_texts ("gui/" ∷ number_text id ∷ []) in
        let label_handle = concat_texts (domain ∷ "/" ∷ service_label ∷ []) in
        let plist = display (service_file paths host macos home) in
        ok (run_allow_failure ("launchctl" ∷ "bootout" ∷ domain ∷ plist ∷ []))
        ∷ ok (run_checked ("launchctl" ∷ "bootstrap" ∷ domain ∷ plist ∷ []))
        ∷ ok (run_checked ("launchctl" ∷ "enable" ∷ label_handle ∷ []))
        ∷ ok (run_checked ("launchctl" ∷ "kickstart" ∷ "-k" ∷ label_handle ∷ []))
        ∷ []

    abbrev IsInstalledFirst : OsKind → Result String ℕ → Outcome paths host → Type 0
    IsInstalledFirst os u = Passes paths host laws (IsInstalled os) (manager_calls os u)

    macos-Passes :
        (u : Result String ℕ) (s : State)
        → host.current_exe ≡ ok exe
        → render_env_file paths net ip cli rust_log ≡ ok env_text
        → service_file paths host macos home ≢ app_env_file paths host home
        → IsInstalledFirst macos u
            (run_plan paths host (with_uid paths host net ip cli rust_log u home up) s)
    unfolding with_uid macos_plan
    macos-Passes (err e) s x r apart =
        failed-Passes paths host laws (IsInstalled macos) [] (call_failed e) s
    macos-Passes (ok id) s x r apart =
        rw (write_env_done r, write_service_done macos x)
          (writes-Passes paths host laws (app_env_file paths host home)
            (service_file paths host macos home) env_text
            (service_text paths host net ip cli rust_log macos home exe) (_ ∷ _ ∷ _ ∷ [])
            (manager_calls macos (ok id)) s apart)

    plan-Passes :
        (os : OsKind) (s : State)
        → host.current_exe ≡ ok exe
        → render_env_file paths net ip cli rust_log ≡ ok env_text
        → service_file paths host os home ≢ app_env_file paths host home
        → IsInstalledFirst os uid
            (run_plan paths host (plan paths host net ip cli rust_log os home up) s)
    unfolding plan linux_plan
    plan-Passes linux s x r apart =
        rw (write_env_done r, write_service_done linux x)
          (writes-Passes paths host laws (app_env_file paths host home)
            (service_file paths host linux home) env_text
            (service_text paths host net ip cli rust_log linux home exe) (_ ∷ _ ∷ [])
            (manager_calls linux uid) s apart)
    plan-Passes macos s x r apart = macos-Passes uid s x r apart

    pub up_installs :
        (os : OsKind) (s t : State)
        → host.home ≡ some home
        → host.current_exe ≡ ok exe
        → render_env_file paths net ip cli rust_log ≡ ok env_text
        → service_file paths host os home ≢ app_env_file paths host home
        → run_service_command paths host net ip cli rust_log os up s ≡ (ok tt, t)
        → (m : State) × IsInstalled os m
          × (run_plan paths host (manager_calls os uid) m ≡ (ok tt, t))
    unfolding run_service_command at_home
    up_installs os s t h x r apart done =
        let ran : run_plan paths host (plan paths host net ip cli rust_log os home up) s
            ≡ (ok tt, t) =
          subst (λ o. at_home paths host net ip cli rust_log os up s o ≡ (ok tt, t)) h done in
        subst (IsInstalledFirst os uid) ran (plan-Passes os s x r apart)
