-- ===== src/Pins/Tests.antt =====
-- Runs of the model of fpga/ulx3s/check_pins.py on a small design, and an instance of its theorem.
use koti.Base.{◌≡◌, refl, none, some, true, false, [], ◌∷◌, ◌++◌}
use koti.Base.Text.{Text, codes, text_eq, dec}
use koti.Base.Number.{is_dec, digit_value}
use koti.Pins.Table.{expected_sites}
use koti.Pins.Clock.{far}
use koti.Pins.Ports.{module_ports}
use koti.Pins.Verdict.{Files, check_pins}
use koti.Pins.Passes.{Fits, check_pins-Fits}

abbrev top_text : Text
top_text =
    codes
      "module ulx3s_top (\n  input  wire clk_25mhz,\n  output logic [1:0] led,\n  inout sd_cmd\n);\n"

abbrev lpf_text : Text
lpf_text =
    codes "LOCATE COMP \"clk_25mhz\" SITE \"G2\";\nlocate comp \"led[0]\" site \"B2\";\n"
    ++ codes "LOCATE COMP \"led[1]\" SITE \"C2\";\n  LOCATE COMP \"sd_cmd\" SITE \"J1\" ;\n"

abbrev clock_text : Text
clock_text = codes "FREQUENCY PORT \"clk_25mhz\" 25.0 MHZ;\n"

abbrev files : Files
files = record {
  top = some top_text;
  lpf = some (lpf_text ++ clock_text);
  console = some (codes "LOCATE COMP \"sd_cmd\" SITE \"J1\";");
}

passes : check_pins files ≡ some 0
unfolding check_pins expected_sites is_dec dec digit_value
passes = refl

-- The frequency of another port serves for the clock's.
other_clock :
    check_pins (record files { lpf = some (lpf_text ++ codes "FREQUENCY PORT \"led[0]\" 1 MHZ;") })
    ≡ some 0
unfolding check_pins expected_sites is_dec dec digit_value
other_clock = refl

-- Python's 25.001 - 25.0 is above its 0.001, and `25.0.0` is no number.
far_enough : far (codes "25.001") ≡ some true
unfolding far is_dec
far_enough = refl

near_enough : far (codes "25.00099") ≡ some false
unfolding far is_dec
near_enough = refl

two_points : far (codes "25.0.0") ≡ none
unfolding far is_dec
two_points = refl

-- A name that begins like a word for a type loses that word.
reg_name : module_ports (codes "module ulx3s_top (\n  input reg_en\n);") ≡ some (codes "_en" ∷ [])
unfolding module_ports is_dec
reg_name = refl

check_pins-Fits_example :
    (top : Text) × (lpf : Text) × (files.top ≡ some top) × (files.lpf ≡ some lpf) × Fits top lpf
check_pins-Fits_example = check_pins-Fits files passes
