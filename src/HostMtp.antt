-- ===== src/HostMtp.antt =====
-- usbip/classes/host/mtp.py: the host's side of MTP, its transactions.
-- The handle of the device (usbip/host.py) is a parameter; S is the state of the connection behind it.
pub mod Datasets
pub mod Operations
pub mod Containers
use Prim.Native.Nat.{bit_and}
use usbip_python.Base
use usbip_python.Base.{
  ℕ, zero, suc, ◌+◌, ◌-◌, ◌*◌, Bool, true, false, ◌&&◌, List, [], ◌∷◌, ◌++◌, Option, none, some,
  ◌==◌, if◌then◌else◌, ltb, length, take, drop, get_or,
}
use usbip_python.Struct.{Bytes, little, pack, from_le}
use usbip_python.Core.{dt_interface, dt_endpoint}
use usbip_python.Core.Walk.{iter_descriptors}
use usbip_python.Mtp.{ct_data, ct_response, rc_ok}

-- A call returns, raises MtpError of a response code, or raises another exception.
pub data Result (A : Type 0) : Type 0 where
  got : A → Result A
  refused : ℕ → Result A
  failed : Result A

-- `none` is an exception of the connection.
pub record Handle (S : Type 0) : Type 0 where
  pub bulk_in : ℕ → ℕ → S → Option (Bytes × S)
  pub bulk_out : ℕ → Bytes → S → Option S

pub record MtpHost : Type 0 where
  pub ep_in : ℕ
  pub ep_out : ℕ
  pub ep_intr : ℕ
  pub last_txid : ℕ
  pub session : ℕ

-- The driver with its connection.
abbrev pub Drive : Type 0 → Type 0 → Type 0
Drive S A = MtpHost × S → Result A × (MtpHost × S)

abbrev pub next : {S A B : Type 0} → Result A → (A → Drive S B) → Drive S B
next (got a) f s = f a s
next (refused code) f s = (refused code, s)
next failed f s = (failed, s)

infixl 5 ◌>>=◌
abbrev pub ◌>>=◌ : {S A B : Type 0} → Drive S A → (A → Drive S B) → Drive S B
◌>>=◌ m f s = let (r, s') = m s in next r f s'

abbrev pub pure : {S A : Type 0} → A → Drive S A
pure a s = (got a, s)

abbrev pub raise : {S A : Type 0} → Drive S A
raise s = (failed, s)

-- What may raise.
abbrev pub or_raise : {S A : Type 0} → Option A → Drive S A
or_raise none = raise
or_raise (some a) = pure a

-- The loop of _discover_endpoints, from the defaults on: bulk is 2, interrupt is 3.
unfoldable pub discover_mtp : Bool → MtpHost → List Bytes → MtpHost
discover_mtp inside d [] = d
discover_mtp inside d (x ∷ xs) =
    let addr = get_or x 2 0 in
    let attr = bit_and (get_or x 3 0) 0x03 in
    let to_host = if bit_and addr 0x80 == 0 then false else true in
    let entered = discover_mtp (get_or x 5 0 == 0x06) d xs in
    let to_in = discover_mtp inside (record d { ep_in = addr }) xs in
    let to_out = discover_mtp inside (record d { ep_out = addr }) xs in
    let to_intr = discover_mtp inside (record d { ep_intr = addr }) xs in
    let over = discover_mtp inside d xs in
    if get_or x 1 0 == dt_interface && ltb 8 (length x)
    then entered
    else if get_or x 1 0 == dt_endpoint && (inside && ltb 4 (length x))
    then if attr == 2
      then (if to_host then to_in else to_out)
      else if attr == 3 && to_host
      then to_intr
      else over
    else over

abbrev defaults : MtpHost
defaults = record { ep_in = 0x81; ep_out = 0x01; ep_intr = 0x82; last_txid = 0; session = 0 }

-- MtpHost(handle), for the configuration that the device answers with; `none` if that fails.
unfoldable pub new_host : Option Bytes → MtpHost
unfolding discover_mtp
new_host none = defaults
new_host (some cfg) = discover_mtp false defaults (iter_descriptors cfg 0)

-- The response parameters: four bytes each, the last of what is left.
unfoldable pub response_words : ℕ → Bytes → List ℕ
response_words zero bs = []
response_words (suc k) [] = []
response_words (suc k) (b ∷ bs) = from_le (take 4 (b ∷ bs)) ∷ response_words k (drop 4 (b ∷ bs))

-- The bytes of a command or data container.
unfoldable pub host_container : ℕ → ℕ → ℕ → Bytes → Option Bytes
host_container ctype op txid body =
    Base.◌>>=◌ (pack little ((4, 12 + length body) ∷ (2, ctype) ∷ (2, op) ∷ (4, txid) ∷ []))
      (λ head. some (head ++ body))

unfoldable pub pack_params : List ℕ → Option Bytes
pack_params [] = some []
pack_params (p ∷ ps) =
    Base.◌>>=◌ (pack little ((4, p) ∷ [])) (λ b. Base.◌>>=◌ (pack_params ps) (λ bs. some (b ++ bs)))

-- What a container has, as it is received.
pub record Received : Type 0 where
  pub ctype : ℕ
  pub code : ℕ
  pub txid : ℕ
  pub payload : Bytes

unfoldable pub received : Bytes → ℕ → Received
received buf n = record {
  ctype = from_le (take 2 (drop 4 buf));
  code = from_le (take 2 (drop 6 buf));
  txid = from_le (take 4 (drop 8 buf));
  payload = drop 12 (take n buf);
}

-- The code, the parameters, and the data if there was any.
abbrev pub Reply : Type 0
Reply = ℕ × List ℕ × Option Bytes

module _ {S : Type 0} (handle : Handle S) where
  -- self.handle.bulk_in(self.ep_in, n): nothing raises.
  nonempty : MtpHost → Option (Bytes × S) → S → Result Bytes × (MtpHost × S)
  nonempty d none s = (failed, (d, s))
  nonempty d (some ([], s')) s = (failed, (d, s'))
  nonempty d (some (b ∷ bs, s')) s = (got (b ∷ bs), (d, s'))

  unfoldable pub read_part : ℕ → Drive S Bytes
  unfolding nonempty
  read_part n (d, s) = nonempty d (handle.bulk_in d.ep_in n s) s

  -- The loop for the header: every part has a byte at least, so 12 rounds are enough.
  unfoldable pub read_head : ℕ → Bytes → Drive S Bytes
  unfolding read_part
  read_head zero buf = pure buf
  read_head (suc k) buf =
      if ltb (length buf) 12
      then (read_part 512 >>= λ part. read_head k (buf ++ part))
      else pure buf

  -- The loop for the rest: n rounds are enough for n bytes.
  unfoldable pub read_body : ℕ → ℕ → Bytes → Drive S Bytes
  unfolding read_part
  read_body zero n buf = pure buf
  read_body (suc k) n buf =
      if ltb (length buf) n
      then (read_part (n - length buf) >>= λ part. read_body k n (buf ++ part))
      else pure buf

  -- _recv_container()
  unfoldable pub recv_container : Drive S Received
  unfolding read_head read_body received
  recv_container = read_head 12 [] >>= λ buf.
      read_body (from_le (take 4 buf)) (from_le (take 4 buf)) buf >>= λ whole.
      pure (received whole (from_le (take 4 buf)))

  sent : MtpHost → Option S → S → Result (Unit {0}) × (MtpHost × S)
  sent d none s = (failed, (d, s))
  sent d (some s') s = (got tt, (d, s'))

  write_bulk : Bytes → Drive S (Unit {0})
  unfolding sent
  write_bulk bs (d, s) = sent d (handle.bulk_out d.ep_out bs s) s

  send_data : ℕ → ℕ → Option Bytes → Drive S (Unit {0})
  unfolding write_bulk host_container
  send_data op txid none = pure tt
  send_data op txid (some bs) = or_raise (host_container 2 op txid bs) >>= write_bulk

  -- The loop for the response: as many containers as the host has patience for.
  unfoldable pub await_response : ℕ → Option Bytes → Drive S Reply
  unfolding recv_container response_words
  await_response zero found = raise
  await_response (suc k) found = recv_container >>= λ c.
      if c.ctype == ct_data
      then await_response k (some c.payload)
      else if c.ctype == ct_response
      then pure (c.code, response_words (length c.payload) c.payload, found)
      else await_response k found

  take_txid : Drive S ℕ
  take_txid (d, s) = (got (d.last_txid + 1), (record d { last_txid = d.last_txid + 1 }, s))

  module _ (patience : ℕ) where
    -- transaction(op, params, data_out)
    unfoldable pub transaction : ℕ → List ℕ → Option Bytes → Drive S Reply
    unfolding await_response send_data write_bulk take_txid pack_params host_container
    transaction op ps data_out = take_txid >>= λ txid. or_raise (pack_params ps) >>= λ body.
        or_raise (host_container 1 op txid body) >>= λ bs.
        write_bulk bs >>= λ _. send_data op txid data_out >>= λ _. await_response patience none

    good : Reply → Drive S (List ℕ × Option Bytes)
    good (code, ps, found) s = if code == rc_ok then (got (ps, found), s) else (refused code, s)

    -- _ok(op, params, data_out)
    unfoldable pub ok : ℕ → List ℕ → Option Bytes → Drive S (List ℕ × Option Bytes)
    unfolding transaction good
    ok op ps data_out = transaction op ps data_out >>= good
