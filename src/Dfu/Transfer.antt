-- ===== src/Dfu/Transfer.antt =====
-- An image that a host downloads to a target, and uploads again.
use usbip_python.Base.{
  ℕ, zero, suc, ◌%◌, [], ◌∷◌, ◌++◌, Option, none, some, ◌>>=◌, ◌==◌, if◌then◌else◌, ltb, length,
  take, drop, get_or,
}
use usbip_python.Struct.{Bytes}
use usbip_python.Core.Setup.{Setup}
use usbip_python.Device.State.{Answer, reply}
use usbip_python.Dfu.{Backend, Dfu, on_control}

-- A class request of the host: DNLOAD and CLRSTATUS go out (0x21), the others in (0xA1).
abbrev pub request : ℕ → ℕ → ℕ → ℕ → Setup
request kind number value size = record {
  bm_request_type = kind;
  b_request = number;
  w_value = value % 65536;
  w_index = 0;
  w_length = size % 65536;
}

-- The host stops at a stall, and when the connection ends.
abbrev pub replied : {T : Type 0} → Answer × Dfu T → Option (Bytes × Dfu T)
replied (reply bs, s) = some (bs, s)
replied (_, s) = none

module _ {T : Type 0} (backend : Backend T) where
  unfoldable pub ask : Dfu T → Setup → Bytes → Option (Bytes × Dfu T)
  ask s setup payload = replied (on_control backend s setup payload)

  -- The reply to GETSTATUS: the host goes on if the status is OK.
  abbrev pub unless_error : Bytes × Dfu T → Option (Dfu T)
  unless_error (status, s) = if get_or status 0 1 == 0 then some s else none

  abbrev pub poll : Bytes × Dfu T → Option (Dfu T)
  poll (_, s) = ask s (request 0xA1 3 0 6) [] >>= unless_error

  -- One DNLOAD, and GETSTATUS.
  unfoldable pub send_block : Dfu T → ℕ → Bytes → Option (Dfu T)
  unfolding ask
  send_block s number block = ask s (request 0x21 1 number (length block)) block >>= poll

  -- The image in blocks of the transfer size, and the empty block that ends the download. The fuel
  -- counts the blocks.
  unfoldable pub send_image : ℕ → Dfu T → ℕ → Bytes → Option (Dfu T)
  unfolding send_block
  send_image zero s number image = none
  send_image (suc fuel) s number [] = send_block s number []
  send_image (suc fuel) s number (b ∷ bs) = do
    s' ← send_block s number (take s.transfer_size (b ∷ bs))
    send_image fuel s' (suc number) (drop s.transfer_size (b ∷ bs))

  -- UPLOAD block by block, until a short one.
  unfoldable pub fetch_image : ℕ → Dfu T → ℕ → Option (Bytes × Dfu T)
  unfolding ask
  fetch_image zero s number = none
  fetch_image (suc fuel) s number = do
    (chunk, s') ← ask s (request 0xA1 2 number s.transfer_size) []
    if ltb (length chunk) s.transfer_size
        then some (chunk, s')
        else (do (rest, s'') ← fetch_image fuel s' (suc number); some (chunk ++ rest, s''))
