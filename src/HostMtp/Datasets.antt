-- ===== src/HostMtp/Datasets.antt =====
-- usbip/classes/host/mtp.py: the readers of the datasets. `none` is an exception.
use usbip_python.Base.{
  ℕ, zero, suc, ◌+◌, ◌*◌, List, [], ◌∷◌, Option, some, ◌>>=◌, ◌==◌, if◌then◌else◌, take, drop,
}
use usbip_python.Struct.{Bytes, from_le}
use usbip_python.Core.Text.{Text}
use usbip_python.Mtp.Encode.{ptp_str_parse}

words_from : ℕ → Bytes → List ℕ
words_from zero raw = []
words_from (suc n) raw = from_le (take 4 raw) ∷ words_from n (drop 4 raw)

-- _u32_array(data)
unfoldable pub read_u32_array : Bytes → List ℕ
unfolding words_from
read_u32_array raw = words_from (from_le (take 4 raw)) (drop 4 raw)

-- A property value: a text, bytes or a number.
pub data Value : Type 0 where
  text : Text → Value
  bytes : Bytes → Value
  number : ℕ → Value

-- TYPE_SIZES.get(dtype, 0)
abbrev size_of : ℕ → ℕ
size_of dtype =
    if dtype == 0x0002
    then 1
    else if dtype == 0x0004
    then 2
    else if dtype == 0x0006
    then 4
    else if dtype == 0x0008
    then 8
    else if dtype == 0x000A
    then 16
    else 0

-- _decode_value(data, off, dtype)
unfoldable pub decode_value : Bytes → ℕ → ℕ → Option (Value × ℕ)
decode_value raw off dtype =
    if dtype == 0xFFFF
    then (do (t, next) ← ptp_str_parse raw off; some (text t, next))
    else (let part = take (size_of dtype) (drop off raw) in
        some (if dtype == 0x000A then bytes part else number (from_le part), off + size_of dtype))

-- A dict of dicts, in the order of its first keys: an object, a property and its value.
abbrev pub Props : Type 0
Props = List (ℕ × List (ℕ × Value))

unfoldable pub put_value : ℕ → Value → List (ℕ × Value) → List (ℕ × Value)
put_value k v [] = (k, v) ∷ []
put_value k v ((j, w) ∷ m) = if j == k then (j, v) ∷ m else (j, w) ∷ put_value k v m

-- out.setdefault(handle, {})[prop] = value
unfoldable pub put_prop : ℕ → ℕ → Value → Props → Props
unfolding put_value
put_prop h k v [] = (h, (k, v) ∷ []) ∷ []
put_prop h k v ((g, m) ∷ ms) =
    if g == h then (g, put_value k v m) ∷ ms else (g, m) ∷ put_prop h k v ms

prop_rows_from : ℕ → Bytes → ℕ → Props → Option Props
unfolding decode_value put_prop
prop_rows_from zero raw off out = some out
prop_rows_from (suc n) raw off out = do
  let h = from_le (take 4 (drop off raw))
  let k = from_le (take 2 (drop (off + 4) raw))
  let dtype = from_le (take 2 (drop (off + 6) raw))
  (value, off') ← decode_value raw (off + 8) dtype
  prop_rows_from n raw off' (put_prop h k value out)

-- _parse_prop_list(data)
unfoldable pub parse_prop_list : Bytes → Option Props
unfolding prop_rows_from
parse_prop_list raw = prop_rows_from (from_le (take 4 raw)) raw 4 []

-- u16(), and the offset behind it.
abbrev u16_at : Bytes → ℕ → ℕ × ℕ
u16_at raw off = (from_le (take 2 (drop off raw)), off + 2)

u16s_at : ℕ → Bytes → ℕ → List ℕ
u16s_at zero raw off = []
u16s_at (suc n) raw off = from_le (take 2 (drop off raw)) ∷ u16s_at n raw (off + 2)

-- arr(), and the offset behind it.
unfoldable pub array_at : Bytes → ℕ → List ℕ × ℕ
unfolding u16s_at
array_at raw off =
    let n = from_le (take 4 (drop off raw)) in (u16s_at n raw (off + 4), off + 4 + 2 * n)

pub record DeviceInfo : Type 0 where
  pub standard_version : ℕ
  pub vendor_ext : ℕ
  pub mtp_version : ℕ
  pub extensions : Text
  pub functional_mode : ℕ
  pub operations : List ℕ
  pub events : List ℕ
  pub device_props : List ℕ
  pub capture_formats : List ℕ
  pub playback_formats : List ℕ
  pub manufacturer : Text
  pub model : Text
  pub device_version : Text
  pub serial : Text

-- _parse_device_info(data)
unfoldable pub parse_device_info : Bytes → Option DeviceInfo
unfolding array_at
parse_device_info raw = do
  (extensions, o1) ← ptp_str_parse raw 8
  let (mode, o2) = u16_at raw o1
  let (operations, o3) = array_at raw o2
  let (events, o4) = array_at raw o3
  let (device_props, o5) = array_at raw o4
  let (capture, o6) = array_at raw o5
  let (playback, o7) = array_at raw o6
  (manufacturer, o8) ← ptp_str_parse raw o7
  (model, o9) ← ptp_str_parse raw o8
  (version, o10) ← ptp_str_parse raw o9
  (serial, o11) ← ptp_str_parse raw o10
  some (record {
    standard_version = from_le (take 2 raw);
    vendor_ext = from_le (take 4 (drop 2 raw));
    mtp_version = from_le (take 2 (drop 6 raw));
    extensions = extensions;
    functional_mode = mode;
    operations = operations;
    events = events;
    device_props = device_props;
    capture_formats = capture;
    playback_formats = playback;
    manufacturer = manufacturer;
    model = model;
    device_version = version;
    serial = serial;
  })
