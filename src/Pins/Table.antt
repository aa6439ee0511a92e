-- ===== src/Pins/Table.antt =====
-- `EXPECTED` of fpga/ulx3s/check_pins.py.
use koti.Base.{List, [], ◌∷◌}
use koti.Base.Text.{Text, codes}

-- A bit of a port and the site that the board has for it.
unfoldable pub expected_sites : List (Text × Text)
expected_sites =
    (codes "clk_25mhz", codes "G2")
    ∷ (codes "btn[0]", codes "D6")
    ∷ (codes "btn[1]", codes "R1")
    ∷ (codes "btn[2]", codes "T1")
    ∷ (codes "btn[3]", codes "R18")
    ∷ (codes "btn[4]", codes "V1")
    ∷ (codes "btn[5]", codes "U1")
    ∷ (codes "btn[6]", codes "H16")
    ∷ (codes "sw[0]", codes "E8")
    ∷ (codes "sw[1]", codes "D8")
    ∷ (codes "sw[2]", codes "D7")
    ∷ (codes "sw[3]", codes "E7")
    ∷ (codes "led[0]", codes "B2")
    ∷ (codes "led[1]", codes "C2")
    ∷ (codes "led[2]", codes "C1")
    ∷ (codes "led[3]", codes "D2")
    ∷ (codes "led[4]", codes "D1")
    ∷ (codes "led[5]", codes "E2")
    ∷ (codes "led[6]", codes "E1")
    ∷ (codes "led[7]", codes "H3")
    ∷ (codes "ftdi_rxd", codes "L4")
    ∷ (codes "wifi_gpio0", codes "F1")
    ∷ (codes "wifi_en", codes "J5")
    ∷ (codes "sd_clk", codes "H2")
    ∷ (codes "sd_cmd", codes "J1")
    ∷ (codes "sd_d[0]", codes "J3")
    ∷ (codes "sd_d[1]", codes "H1")
    ∷ (codes "sd_d[2]", codes "K1")
    ∷ (codes "sd_d[3]", codes "K2")
    ∷ (codes "gpdi_dp[0]", codes "A16")
    ∷ (codes "gpdi_dp[1]", codes "A14")
    ∷ (codes "gpdi_dp[2]", codes "A12")
    ∷ (codes "gpdi_dp[3]", codes "A17")
    ∷ (codes "usb_fpga_bd_dp", codes "D15")
    ∷ (codes "usb_fpga_bd_dn", codes "E15")
    ∷ (codes "pmod_gp[0]", codes "B11")
    ∷ (codes "pmod_gp[1]", codes "A10")
    ∷ (codes "pmod_gp[2]", codes "A9")
    ∷ (codes "pmod_gp[3]", codes "B9")
    ∷ (codes "pmod_gn[0]", codes "C11")
    ∷ (codes "pmod_gn[1]", codes "A11")
    ∷ (codes "pmod_gn[2]", codes "B10")
    ∷ (codes "pmod_gn[3]", codes "C10")
    ∷ (codes "vga_gp[0]", codes "A7")
    ∷ (codes "vga_gp[1]", codes "C8")
    ∷ (codes "vga_gp[2]", codes "C6")
    ∷ (codes "vga_gp[3]", codes "A6")
    ∷ (codes "vga_gn[0]", codes "A8")
    ∷ (codes "vga_gn[1]", codes "B8")
    ∷ (codes "vga_gn[2]", codes "C7")
    ∷ (codes "vga_gn[3]", codes "B6")
    ∷ (codes "rtc_scl", codes "A4")
    ∷ (codes "rtc_sda", codes "A2")
    ∷ (codes "rtc_sqw", codes "A5")
    ∷ (codes "rtc2_scl", codes "E12")
    ∷ (codes "rtc2_sda", codes "B19")
    ∷ (codes "audio_l[3]", codes "B3")
    ∷ (codes "audio_l[2]", codes "C3")
    ∷ (codes "audio_l[1]", codes "D3")
    ∷ (codes "audio_l[0]", codes "E4")
    ∷ (codes "audio_r[3]", codes "C5")
    ∷ (codes "audio_r[2]", codes "D5")
    ∷ (codes "audio_r[1]", codes "B5")
    ∷ (codes "audio_r[0]", codes "A3")
    ∷ (codes "sdram_clk", codes "F19")
    ∷ (codes "sdram_cke", codes "F20")
    ∷ (codes "sdram_csn", codes "P20")
    ∷ (codes "sdram_wen", codes "T20")
    ∷ (codes "sdram_rasn", codes "R20")
    ∷ (codes "sdram_casn", codes "T19")
    ∷ (codes "sdram_a[0]", codes "M20")
    ∷ (codes "sdram_a[1]", codes "M19")
    ∷ (codes "sdram_a[2]", codes "L20")
    ∷ (codes "sdram_a[3]", codes "L19")
    ∷ (codes "sdram_a[4]", codes "K20")
    ∷ (codes "sdram_a[5]", codes "K19")
    ∷ (codes "sdram_a[6]", codes "K18")
    ∷ (codes "sdram_a[7]", codes "J20")
    ∷ (codes "sdram_a[8]", codes "J19")
    ∷ (codes "sdram_a[9]", codes "H20")
    ∷ (codes "sdram_a[10]", codes "N19")
    ∷ (codes "sdram_a[11]", codes "G20")
    ∷ (codes "sdram_a[12]", codes "G19")
    ∷ (codes "sdram_ba[0]", codes "P19")
    ∷ (codes "sdram_ba[1]", codes "N20")
    ∷ (codes "sdram_d[0]", codes "J16")
    ∷ (codes "sdram_d[1]", codes "L18")
    ∷ (codes "sdram_d[2]", codes "M18")
    ∷ (codes "sdram_d[3]", codes "N18")
    ∷ (codes "sdram_d[4]", codes "P18")
    ∷ (codes "sdram_d[5]", codes "T18")
    ∷ (codes "sdram_d[6]", codes "T17")
    ∷ (codes "sdram_d[7]", codes "U20")
    ∷ (codes "sdram_d[8]", codes "E19")
    ∷ (codes "sdram_d[9]", codes "D20")
    ∷ (codes "sdram_d[10]", codes "D19")
    ∷ (codes "sdram_d[11]", codes "C20")
    ∷ (codes "sdram_d[12]", codes "E18")
    ∷ (codes "sdram_d[13]", codes "F18")
    ∷ (codes "sdram_d[14]", codes "J18")
    ∷ (codes "sdram_d[15]", codes "J17")
    ∷ (codes "sdram_dqm[0]", codes "U19")
    ∷ (codes "sdram_dqm[1]", codes "E20")
    ∷ []
