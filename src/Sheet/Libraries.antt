-- ===== src/Sheet/Libraries.antt =====
-- hardware/cirradio-devboard/gen_*.py: the libraries of the six sheets, in the order of
-- `emit_lib_symbols`.
use cirradio.Prelude.{List, [], ◌∷◌, ◌++◌, codes, gather, words}
use cirradio.Sheet.Library.{LibLine, power_lib}
use cirradio.Sheet.Pages.{
  Page, gen_zynq, gen_ddr3l, gen_ad9361, gen_rf, gen_peripherals, gen_connectors,
}
use cirradio.Sheet.Library.Transceiver.{ad9361bbcz}
use cirradio.Sheet.Library.Radio.{adl5523acpz, antenna_coaxial, device_bpf, pe42525}
use cirradio.Sheet.Library.Amplifier.{adl5606acpz, tga2594_sm}
use cirradio.Sheet.Library.Sockets.{conn_01x09, conn_coaxial, rj45_shielded, usb_a, usb_b_micro}
use cirradio.Sheet.Library.Boot.{conn_02x07_odd_even, dsc1001ci2_33_333, sw_dip_x02}
use cirradio.Sheet.Library.Connect.{conn_02x20_odd_even, test_point_symbol}
use cirradio.Sheet.Library.Passive.{
  device_c, device_crystal, device_l, device_led, device_r, sw_push,
}
use cirradio.Sheet.Library.Ports.{ft232rq, ksz9031, max_m10s}
use cirradio.Sheet.Library.Clock.{ldo_generic, ox200_sc_040_0m}
use cirradio.Sheet.Library.Memory.{mt41k256m16ha}
use cirradio.Sheet.Library.Storage.{mtfc8gakajcn, s25fl256s, usb3320c}
use cirradio.Sheet.Library.Banks.{zynq_banks}
use cirradio.Sheet.Library.Config.{zynq_config, zynq_mio}
use cirradio.Sheet.Library.Ddr.{zynq_ddr}
use cirradio.Sheet.Library.Power.{zynq_power}

unfoldable pub processor_library : List LibLine
unfolding power_lib device_r device_c device_led zynq_config zynq_mio zynq_ddr zynq_banks zynq_power
    dsc1001ci2_33_333 conn_02x07_odd_even sw_dip_x02 sw_push
processor_library =
    device_r
    ++ (device_c
        ++ (device_led
            ++ (zynq_config
                ++ (zynq_mio
                    ++ (zynq_ddr
                        ++ (zynq_banks
                            ++ (zynq_power
                                ++ (dsc1001ci2_33_333
                                    ++ (conn_02x07_odd_even
                                        ++ (sw_dip_x02
                                            ++ (sw_push
                                                ++ (gather power_lib (
                                                    (words
                                                      "+1V0 +1V5 +1V8 +3V3 +3V3A GND"))))))))))))))

unfoldable pub memory_library : List LibLine
unfolding power_lib device_r device_c mt41k256m16ha
memory_library =
    device_r
    ++ (device_c ++ (mt41k256m16ha ++ (gather power_lib (codes "+1V35" ∷ codes "GND" ∷ []))))

unfoldable pub transceiver_library : List LibLine
unfolding power_lib device_r device_c ad9361bbcz ox200_sc_040_0m ldo_generic
transceiver_library =
    device_r
    ++ (device_c
        ++ (ad9361bbcz
            ++ (ox200_sc_040_0m
                ++ (ldo_generic
                    ++ (gather power_lib
                        (codes "+1V3_AD" ∷ codes "+1V8" ∷ codes "+3V3A" ∷ codes "GND" ∷ []))))))

unfoldable pub radio_library : List LibLine
unfolding power_lib device_r device_c device_l antenna_coaxial device_bpf pe42525 adl5523acpz
    adl5606acpz tga2594_sm
radio_library =
    device_r
    ++ (device_c
        ++ (device_l
            ++ (antenna_coaxial
                ++ (device_bpf
                    ++ (pe42525
                        ++ (adl5523acpz
                            ++ (adl5606acpz
                                ++ (tga2594_sm
                                    ++ (gather power_lib (
                                        codes "+3V3"
                                        ∷ codes "+3V3A"
                                        ∷ codes "+5V_PA"
                                        ∷ codes "GND"
                                        ∷ []))))))))))

unfoldable pub peripherals_library : List LibLine
unfolding power_lib device_r device_c device_crystal conn_coaxial s25fl256s mtfc8gakajcn usb3320c
    ksz9031 ft232rq max_m10s conn_01x09 usb_a usb_b_micro rj45_shielded
peripherals_library =
    device_r
    ++ (device_c
        ++ (device_crystal
            ++ (conn_coaxial
                ++ (s25fl256s
                    ++ (mtfc8gakajcn
                        ++ (usb3320c
                            ++ (ksz9031
                                ++ (ft232rq
                                    ++ (max_m10s
                                        ++ (conn_01x09
                                            ++ (usb_a
                                                ++ (usb_b_micro
                                                    ++ (rj45_shielded
                                                        ++ (gather power_lib (
                                                            codes "+1V8"
                                                            ∷ codes "+3V3"
                                                            ∷ codes "+3V3A"
                                                            ∷ codes "+5V"
                                                            ∷ codes "GND"
                                                            ∷ [])))))))))))))))

unfoldable pub connect_library : List LibLine
unfolding power_lib device_r device_c device_led sw_push conn_02x20_odd_even test_point_symbol
connect_library =
    device_r
    ++ (device_c
        ++ (device_led
            ++ (sw_push
                ++ (conn_02x20_odd_even
                    ++ (test_point_symbol
                        ++ (gather power_lib
                            ((words "+12V +5V +3V3 +1V8 +1V35 +1V0 +1V5 VTT GND"))))))))

abbrev pub page_library : Page → List LibLine
page_library gen_zynq = processor_library
page_library gen_ddr3l = memory_library
page_library gen_ad9361 = transceiver_library
page_library gen_rf = radio_library
page_library gen_peripherals = peripherals_library
page_library gen_connectors = connect_library
