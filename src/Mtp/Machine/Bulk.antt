-- ===== src/Mtp/Machine/Bulk.antt =====
-- usbip/classes/device/mtp.py, MTP.on_out: command containers, and the data-out phases behind them.
use usbip_python.Base.{
  ℕ, ◌+◌, ◌*◌, ◌^◌, List, [], ◌∷◌, ◌++◌, Option, none, some, ◌>>=◌, if◌then◌else◌, ltb, leb, length,
  take, drop,
}
use usbip_python.Struct.{Bytes, from_le}
use usbip_python.Mtp.{Backend, Platform}
use usbip_python.Mtp.Machine.{
  Mtp, Rx, Params, Outcome, Effect, Call, in_write, intr_write, op_of, response, data_container,
  event, Act, resp, give_data, send_event, begin_rx,
}
use usbip_python.Mtp.Machine.Execute.{perform}
use usbip_python.Mtp.Machine.Receive.{receive}

-- What a transfer leaves and writes; `none` is an exception.
abbrev pub Result : Type 0 → Type 0
Result B = Option (Mtp B × List Call)

-- A parameter of a command: 0 where the container ends before it.
unfoldable pub word : Bytes → ℕ → ℕ
word raw i = if leb (16 + 4 * i) (length raw) then from_le (take 4 (drop (12 + 4 * i) raw)) else 0

unfoldable pub params_of : Bytes → Params
unfolding word
params_of raw = record {
  p0 = word raw 0;
  p1 = word raw 1;
  p2 = word raw 2;
  p3 = word raw 3;
  p4 = word raw 4;
}

-- rx["need"], once the length of the container has come.
abbrev pub needed : Option ℕ → Bytes → Option ℕ
needed (some n) buf = some n
needed none buf = if leb 12 (length buf) then some (from_le (take 4 buf)) else none

module _ {B : Type 0} where
  -- Containers that are written first.
  abbrev pub behind : List Call → Result B → Result B
  behind calls none = none
  behind calls (some (s, more)) = some (s, calls ++ more)

  -- The calls of a handler one after the other. A data container longer than its field can say raises.
  unfoldable pub perform_acts : ℕ → ℕ → Params → Mtp B → List Act → Result B
  perform_acts code txid p s [] = some (s, [])
  perform_acts code txid p s (resp rc ps ∷ acts) =
      behind (in_write (response rc txid ps) ∷ []) (perform_acts code txid p s acts)
  perform_acts code txid p s (give_data payload ∷ acts) =
      let rest = perform_acts code txid p s acts in
      if ltb (12 + length payload) (2 ^ 32)
      then behind (in_write (data_container code txid payload) ∷ []) rest
      else none
  perform_acts code txid p s (send_event ev es ∷ acts) =
      behind (intr_write (event ev es) ∷ []) (perform_acts code txid p s acts)
  perform_acts code txid p s (begin_rx ∷ acts) =
      perform_acts code txid p
        (record s {
          rx = some (record { code = code; txid = txid; params = p; buf = []; need = none });
        })
        acts

  unfoldable pub conclude : ℕ → ℕ → Params → Mtp B × Outcome → Result B
  unfolding perform_acts
  conclude code txid p (s, acts) = perform_acts code txid p s acts

  unfoldable pub finish : Mtp B → Rx → Option (Effect B) → Result B
  unfolding conclude
  finish s w none = some (s, [])
  finish s w (some r) = r >>= conclude w.code w.txid w.params

module _ {B : Type 0} (backend : Backend B) (platform : Platform) where
  -- _dispatch(data): what is shorter than a header is ignored.
  unfoldable pub dispatch : Mtp B → Bytes → Result B
  unfolding conclude params_of
  dispatch s raw = if ltb (length raw) 12 then some (s, []) else (do
    let code = from_le (take 2 (drop 6 raw))
    let txid = from_le (take 4 (drop 8 raw))
    r ← perform backend platform s (op_of code) (params_of raw)
    conclude code txid (params_of raw) r)

  -- _complete_rx(rx, payload)
  unfoldable pub complete_rx : Mtp B → Rx → Bytes → Result B
  unfolding finish
  complete_rx s w payload = finish s w (receive backend platform s (op_of w.code) w.params payload)

  unfoldable pub collected : Mtp B → Rx → Option ℕ → Result B
  unfolding complete_rx
  collected s w none = some (record s { rx = some w }, [])
  collected s w (some n) =
      if leb n (length w.buf)
      then complete_rx (record s { rx = none }) w (drop 12 (take n w.buf))
      else some (record s { rx = some w }, [])

  unfoldable pub collect : Mtp B → Rx → Bytes → Result B
  unfolding collected
  collect s w chunk =
      let buf = w.buf ++ chunk in
      let need = needed w.need buf in collected s (record w { buf = buf; need = need }) need

  unfoldable pub handle_out : Mtp B → Bytes → Option Rx → Result B
  unfolding dispatch collect
  handle_out s chunk none = dispatch s chunk
  handle_out s chunk (some w) = collect s w chunk

  -- on_out(ep, data)
  unfoldable pub on_out : Mtp B → Bytes → Result B
  unfolding handle_out
  on_out s chunk = handle_out s chunk s.rx

  -- Transfers one after the other, and all that they write.
  unfoldable pub run : Mtp B → List Bytes → Result B
  unfolding on_out
  run s [] = some (s, [])
  run s (chunk ∷ chunks) = do
    (s1, calls) ← on_out s chunk
    (s2, more) ← run s1 chunks
    some (s2, calls ++ more)
