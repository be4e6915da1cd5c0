-- ===== src/Tests/Services.antt =====
-- The service manager's actions of src/main.rs at a concrete input.
use punchgate.Common.{
  ◌≡◌, ◌≢◌, refl, ap, true, false, Bool-cases, none, some, String, [], ◌==◌, string_eq, nat_eq,
  arith, Result, ok, err,
}
use punchgate.Collections.HashMap.{HashMap, get, insert, remove, contains_key, get-insert}
use punchgate.Cli.Environment.{render_env_file, absolute_path}
use punchgate.Cli.Service.{
  Host, linux, up, run_service_command, run_plan, perform, called, checked, plan, linux_plan,
  app_env_file, service_file, write_env, write_service, at_home, app_config_dir, systemd_user_dir,
}
use punchgate.Cli.Service.Files.{HostLaws}
use punchgate.Cli.Service.Installed.{IsInstalled, manager_calls, up_installs}
use punchgate.Tests.Environments.{homely, cli}
use punchgate.Tests.Parsing.{tallies}
use punchgate.Tests.Toy.{toy}

-- A machine whose state is its files, and on which every command succeeds.
abbrev machine : Host homely
machine = record {
  State = HashMap String String;
  path = λ name. name;
  home = some "/home/";
  current_exe = ok "/bin/punchgate";
  uid = ok 501;
  exists = λ p files. contains_key p files;
  create_dir_all = λ p files. (ok tt, files);
  write = λ p text files. (ok tt, insert p text files);
  remove_file = λ p files. (ok tt, remove p files);
  status = λ args files. (ok true, files);
}

machine-HostLaws : HostLaws machine
machine-HostLaws = record {
  text_at = λ p files. get p files;
  written = λ p text files h. ground (arith, get-insert p p text files);
  write_keeps = λ p q text files apart. ground (arith, get-insert p q text files, apart);
}

env_text : Result String String → String
env_text (ok text) = text
env_text (err e) = e

rendered :
    render_env_file homely toy tallies cli none
    ≡ ok (env_text (render_env_file homely toy tallies cli none))
unfolding render_env_file absolute_path env_text
rendered = refl

abbrev after_up : HashMap String String
after_up = (run_service_command homely machine toy tallies cli none linux up []).1

up_runs : run_service_command homely machine toy tallies cli none linux up [] ≡ (ok tt, after_up)
unfolding run_service_command at_home plan linux_plan write_env write_service run_plan perform
    called checked render_env_file absolute_path
up_runs = refl

files_apart : service_file homely machine linux "/home/" ≢ app_env_file homely machine "/home/"
unfolding service_file app_env_file app_config_dir systemd_user_dir string_eq nat_eq Bool-cases
files_apart e =
    let different : false ≡ true = ap (λ s. s == app_env_file homely machine "/home/") e in
    absurd cc

up_installs_example :
    (m : HashMap String String) × IsInstalled homely machine machine-HostLaws toy tallies cli none
      "/home/" "/bin/punchgate"
      (env_text (render_env_file homely toy tallies cli none))
      linux
      m
    × (run_plan homely machine
          (manager_calls homely machine machine-HostLaws toy tallies cli none "/home/"
            "/bin/punchgate"
            (env_text (render_env_file homely toy tallies cli none))
            linux
            (ok 501))
          m
        ≡ (ok tt, after_up))
unfolding machine-HostLaws
up_installs_example =
    up_installs homely machine machine-HostLaws toy tallies cli none "/home/" "/bin/punchgate"
      (env_text (render_env_file homely toy tallies cli none)) linux [] after_up refl refl rendered
      files_apart up_runs
