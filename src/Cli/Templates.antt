-- ===== src/Cli/Templates.antt =====
-- The templates of src/main.rs: the unit of systemd, and the launch agent of macOS.
use Prim.Native.String.{◌++◌ as push_str}
use punchgate.Common.{String, List, [], ◌∷◌}
use punchgate.Collections.HashMap.{HashMap}
use punchgate.Collections.Sort.{sort_by}
use punchgate.State.Tunnel.Addresses.{text_le}
use punchgate.Cli.Xml.{xml_escape}
use punchgate.Cli.Environment.{Paths}

abbrev pub service_label : String
service_label = "com.punchgate.daemon"

-- `format!`, by its pieces.
abbrev pub concat_texts : List String → String
concat_texts [] = String.[]
concat_texts (s ∷ rest) = push_str s (concat_texts rest)

unfoldable pub env_entries : List (String × String) → String
unfolding xml_escape
env_entries [] = String.[]
env_entries ((key, value) ∷ envs) = concat_texts (
    "    <key>"
    ∷ xml_escape key
    ∷ "</key>\n    <string>"
    ∷ xml_escape value
    ∷ "</string>\n"
    ∷ env_entries envs
    ∷ [])

module _ (paths : Paths) where
  open paths use {FilePath, display}

  unfoldable pub render_systemd_service : FilePath → String
  render_systemd_service exe_path = concat_texts (
      "[Unit]\nDescription=Punchgate background daemon\nAfter=network-online.target\nWants=network-online.target\n\n[Service]\nType=simple\nEnvironmentFile=%h/.config/punchgate/punchgate.env\nExecStart="
      ∷ display exe_path
      ∷ "\nRestart=always\nRestartSec=2\nKillSignal=SIGINT\nTimeoutStopSec=15\nStandardOutput=journal\nStandardError=journal\n\n[Install]\nWantedBy=default.target\n"
      ∷ [])

  -- A `BTreeMap` is written out by key.
  unfoldable pub render_launchd_plist :
      FilePath → FilePath → FilePath → HashMap String String → String
  unfolding xml_escape env_entries sort_by
  render_launchd_plist exe_path log_out log_err envs = concat_texts (
      "<?xml version=\"1.0\" encoding=\"UTF-8\"?>\n<!DOCTYPE plist PUBLIC \"-//Apple//DTD PLIST 1.0//EN\" \"http://www.apple.com/DTDs/PropertyList-1.0.dtd\">\n<plist version=\"1.0\">\n<dict>\n  <key>Label</key>\n  <string>"
      ∷ service_label
      ∷ "</string>\n\n  <key>ProgramArguments</key>\n  <array>\n    <string>"
      ∷ xml_escape (display exe_path)
      ∷ "</string>\n  </array>\n\n  <key>RunAtLoad</key>\n  <true/>\n  <key>KeepAlive</key>\n  <true/>\n\n  <key>EnvironmentVariables</key>\n  <dict>\n"
      ∷ env_entries (sort_by (λ e d. text_le e.0 d.0) envs)
      ∷ "  </dict>\n\n  <key>StandardOutPath</key>\n  <string>"
      ∷ xml_escape (display log_out)
      ∷ "</string>\n  <key>StandardErrorPath</key>\n  <string>"
      ∷ xml_escape (display log_err)
      ∷ "</string>\n</dict>\n</plist>\n"
      ∷ [])
