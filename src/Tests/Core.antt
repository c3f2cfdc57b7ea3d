-- ===== src/Tests/Core.antt =====
-- usbip/core.py: runs, and the theorems at concrete descriptors.
use usbip_python.Base.{◌≡◌, refl, arith, List, [], ◌∷◌, ◌++◌, none, some, take, drop, join, All}
use usbip_python.Struct.{Bytes, IsByte, little, pack, unpack, to_le, to_word, of_word}
use usbip_python.Struct
use usbip_python.Core.{dt_bos}
use usbip_python.Core.Setup
use usbip_python.Core.Setup.{Setup}
use usbip_python.Core.ConfigurationDescriptor.{ConfigurationDescriptor}
use usbip_python.Core.InterfaceDescriptor.{InterfaceDescriptor}
use usbip_python.Core.EndpointDescriptor.{EndpointDescriptor}
use usbip_python.Core.Walk.{iter_from, iter_descriptors}
use usbip_python.Core.Walk.Laws.{IsDescriptor, Slice, iter_descriptors-join, iter_descriptors_total}
use usbip_python.Core.Text.{utf16, string_descriptor, string_descriptor-IsDescriptor}
use usbip_python.Core.MsOs.{codes, ms_os2_set_subsets}
use usbip_python.Core.Bos.{bos, webusb_platform_cap}
use usbip_python.Core.Lengths.{bos_lem, ms_os2_set_subsets_lem}

abbrev get_config : Setup
get_config = record {
  bm_request_type = 0x80;
  b_request = 6;
  w_value = 0x0200;
  w_index = 0;
  w_length = 255;
}

abbrev get_config_raw : Bytes
get_config_raw = 0x80 ∷ 6 ∷ 0 ∷ 2 ∷ 0 ∷ 0 ∷ 255 ∷ 0 ∷ []

parse-pack_setup_example : Setup.parse (get_config_raw ++ (9 ∷ [])) ≡ some get_config
unfolding Setup.pack Struct.pack to_le
parse-pack_setup_example = Setup.parse-pack_setup get_config get_config_raw (9 ∷ []) refl

abbrev loopback_in : EndpointDescriptor
loopback_in = record {
  b_endpoint_address = 0x81;
  bm_attributes = 2;
  w_max_packet_size = 512;
  b_interval = 0;
}

abbrev loopback_in_raw : Bytes
loopback_in_raw = 7 ∷ 5 ∷ 0x81 ∷ 2 ∷ 0 ∷ 2 ∷ 0 ∷ []

abbrev vendor_interface : InterfaceDescriptor
vendor_interface = record {
  b_interface_number = 0;
  b_alternate_setting = 0;
  b_num_endpoints = 1;
  b_interface_class = 0xFF;
  b_interface_sub_class = 0;
  b_interface_protocol = 0;
  i_interface = 0;
}

abbrev vendor_interface_raw : Bytes
vendor_interface_raw = 9 ∷ 4 ∷ 0 ∷ 0 ∷ 1 ∷ 0xFF ∷ 0 ∷ 0 ∷ 0 ∷ []

abbrev one_interface : ConfigurationDescriptor
one_interface = record {
  w_total_length = 25;
  b_num_interfaces = 1;
  b_configuration_value = 1;
  i_configuration = 0;
  bm_attributes = 0x80;
  b_max_power = 50;
}

abbrev one_interface_raw : Bytes
one_interface_raw = 9 ∷ 2 ∷ 25 ∷ 0 ∷ 1 ∷ 1 ∷ 0 ∷ 0x80 ∷ 50 ∷ []

-- A value that does not fit its field raises.
pack_overflow : Setup.pack (record get_config { w_length = 65536 }) ≡ none
unfolding Setup.pack Struct.pack to_le
pack_overflow = refl

abbrev blocks : List Bytes
blocks = vendor_interface_raw ∷ loopback_in_raw ∷ []

abbrev blocks-All : All IsDescriptor blocks
blocks-All = (
  record { long = omega arith; counted = refl },
  (record { long = omega arith; counted = refl }, tt),
)

iter_descriptors-join_example : iter_descriptors (one_interface_raw ++ join blocks) 9 ≡ blocks
iter_descriptors-join_example = iter_descriptors-join one_interface_raw blocks blocks-All

iter_descriptors_total_example :
    ((rest : Bytes) × (join (iter_descriptors (3 ∷ 4 ∷ 5 ∷ 1 ∷ 9 ∷ []) 0) ++ rest
        ≡ 3 ∷ 4 ∷ 5 ∷ 1 ∷ 9 ∷ []))
    × All Slice (iter_descriptors (3 ∷ 4 ∷ 5 ∷ 1 ∷ 9 ∷ []) 0)
iter_descriptors_total_example = iter_descriptors_total (3 ∷ 4 ∷ 5 ∷ 1 ∷ 9 ∷ []) 0

-- A descriptor that is cut short is yielded short, and a length below 2 ends the walk.
walk_short : iter_descriptors (2 ∷ 4 ∷ 9 ∷ 5 ∷ 1 ∷ []) 0 ≡ (2 ∷ 4 ∷ []) ∷ (9 ∷ 5 ∷ 1 ∷ []) ∷ []
unfolding iter_descriptors iter_from
walk_short = refl

walk_malformed : iter_descriptors (2 ∷ 4 ∷ 1 ∷ 5 ∷ 1 ∷ []) 0 ≡ (2 ∷ 4 ∷ []) ∷ []
unfolding iter_descriptors iter_from
walk_malformed = refl

smile : utf16 (0x41 ∷ 0x1F600 ∷ []) ≡ some (0x41 ∷ 0 ∷ 0x3D ∷ 0xD8 ∷ 0x00 ∷ 0xDE ∷ [])
unfolding utf16 to_le
smile = refl

hello_descriptor-IsDescriptor : IsDescriptor (6 ∷ 3 ∷ 0x41 ∷ 0 ∷ 0x42 ∷ 0 ∷ [])
unfolding string_descriptor utf16 to_le
hello_descriptor-IsDescriptor = string_descriptor-IsDescriptor (codes "AB") refl

abbrev webusb_cap : Bytes
webusb_cap =
    24 ∷ 0x10 ∷ 0x05 ∷ 0x00 ∷ 0x38 ∷ 0xB6 ∷ 0x08 ∷ 0x34 ∷ 0xA9 ∷ 0x09 ∷ 0xA0 ∷ 0x47 ∷ 0x8B ∷ 0xFD
    ∷ 0xA0 ∷ 0x76 ∷ 0x88 ∷ 0x15 ∷ 0xB6 ∷ 0x65 ∷ 0 ∷ 1 ∷ 0x42 ∷ 1 ∷ []

webusb_cap_run : webusb_platform_cap 0x42 1 ≡ some webusb_cap
unfolding webusb_platform_cap Struct.pack to_le
webusb_cap_run = refl

bos_lem_example :
    (unpack little (1 ∷ 1 ∷ 2 ∷ 1 ∷ []) (5 ∷ dt_bos ∷ 29 ∷ 0 ∷ 1 ∷ [])
      ≡ some (5 ∷ dt_bos ∷ 29 ∷ 1 ∷ []))
    × (iter_descriptors (5 ∷ dt_bos ∷ 29 ∷ 0 ∷ 1 ∷ webusb_cap) 5 ≡ webusb_cap ∷ [])
unfolding bos Struct.pack to_le
bos_lem_example =
    bos_lem (webusb_cap ∷ []) (5 ∷ dt_bos ∷ 29 ∷ 0 ∷ 1 ∷ webusb_cap)
      (record { long = omega arith; counted = refl }, tt) refl

abbrev dfu_compatid : Bytes
dfu_compatid =
    40 ∷ 0 ∷ 0 ∷ 0 ∷ 0 ∷ 1 ∷ 4 ∷ 0 ∷ 1 ∷ 0 ∷ 0 ∷ 0 ∷ 0 ∷ 0 ∷ 0 ∷ 0 ∷ 2 ∷ 1 ∷ 87 ∷ 73 ∷ 78 ∷ 85 ∷ 83
    ∷ 66 ∷ 0 ∷ 0 ∷ 0 ∷ 0 ∷ 0 ∷ 0 ∷ 0 ∷ 0 ∷ 0 ∷ 0 ∷ 0 ∷ 0 ∷ 0 ∷ 0 ∷ 0 ∷ 0 ∷ []

abbrev empty_set : Bytes
empty_set = 10 ∷ 0 ∷ 0 ∷ 0 ∷ 0 ∷ 0 ∷ 3 ∷ 6 ∷ 18 ∷ 0 ∷ 8 ∷ 0 ∷ 1 ∷ 0 ∷ 0 ∷ 0 ∷ 8 ∷ 0 ∷ []

ms_os2_set_subsets_lem_example :
    (unpack little (2 ∷ 2 ∷ 4 ∷ 2 ∷ []) (take 10 empty_set) ≡ some (10 ∷ 0 ∷ 0x06030000 ∷ 18 ∷ []))
    × (unpack little (2 ∷ 2 ∷ 1 ∷ 1 ∷ 2 ∷ []) (take 8 (drop 10 empty_set))
        ≡ some (8 ∷ 1 ∷ 0 ∷ 0 ∷ 8 ∷ []))
unfolding ms_os2_set_subsets Struct.pack to_le
ms_os2_set_subsets_lem_example = ms_os2_set_subsets_lem [] empty_set refl
