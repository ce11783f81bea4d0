-- ===== src/Configuration/Tests.antt =====
-- Command lines.
use rk_firmware_flashd.Configuration.{Config, default_config, parse_args}
use rk_firmware_flashd.Configuration.CommandLine.{command_line, parse_args-command_line}
use rk_firmware_flashd.Prelude.{◌≡◌, refl, true, arith}
use rk_firmware_flashd.Prelude.Result.{ok}
use rk_firmware_flashd.Prelude.Text.{text}

abbrev configured : Config
configured = record default_config {
  port = 9090;
  serial_device = text "/dev/ttyS1";
  foreground = true;
}

parse_args-command_line_example :
    parse_args (command_line configured) default_config ≡ ok configured
parse_args-command_line_example =
    parse_args-command_line configured (omega arith) (omega arith) (omega arith) (omega arith) refl
      refl
