-- ===== src/Tests/HostMtp.antt =====
-- usbip/classes/host/mtp.py: the host's operations over the device class, and its readers.
use usbip_python.Base.{
  ℕ, ◌≡◌, refl, arith, Bool, true, false, List, [], ◌∷◌, ◌++◌, Option, none, some, ◌>>=◌, replicate,
}
use usbip_python.Struct.{Bytes}
use usbip_python.Mtp.Machine.{
  Mtp, Call, in_write, intr_write, Container, wire, response, data_container,
}
use usbip_python.Mtp.Machine.Bulk.{on_out}
use usbip_python.HostMtp.{
  Result, got, refused, failed, Handle, MtpHost, Drive, new_host, await_response,
}
use usbip_python.HostMtp
use usbip_python.HostMtp.Operations.{open_session, object_handles, get_object, delete_object}
use usbip_python.HostMtp.Containers.{pipe, pipe_in, await_response-wire}
use usbip_python.Tests.Mtp.{Disk, memory, machine, begin}

-- The device and what it has written to its bulk endpoint.
abbrev Wire : Type 0
Wire = Mtp Disk × List Bytes

abbrev or_nothing : Option Bytes → Bytes
or_nothing none = []
or_nothing (some bs) = bs

abbrev written : List Call → List Bytes
written [] = []
written (in_write c ∷ calls) = or_nothing (wire c) ∷ written calls
written (intr_write c ∷ calls) = written calls

abbrev looped : Bool → Handle Wire
looped protected = record {
  bulk_in = λ ep n w. (do (bs, q) ← pipe_in n w.1; some (bs, (w.0, q)));
  bulk_out = λ ep bs w. (do
    (s, calls) ← on_out (memory protected) machine w.0 bs
    some (s, w.1 ++ written calls));
}

abbrev drive : {A : Type 0} → Bool → Drive Wire A → Result A
drive protected act = (act (new_host none, (begin protected, []))).0

-- A file is read.
abbrev reading : Drive Wire (Option Bytes)
reading = HostMtp.◌>>=◌ (open_session (looped false) 4 1) (λ _. get_object (looped false) 4 1)

reading_lem : drive false reading ≡ got (some (9 ∷ []))
unfolding HostMtp.ok delete_object new_host object_handles on_out open_session pipe_in
    usbip_python.Mtp.Machine.Execute.perform usbip_python.Mtp.Machine.new
    usbip_python.Mtp.Machine.op_of usbip_python.Mtp.Storage.Edit.starts_with
    usbip_python.Mtp.Storage.new usbip_python.Struct.from_le usbip_python.Struct.pack
    usbip_python.Struct.to_le wire get_object usbip_python.Mtp.Storage.object_at
    usbip_python.Mtp.Storage.handle_at usbip_python.Mtp.Storage.Query.read
reading_lem = refl

-- Without a session, and over a read-only store.
abbrev no_session : Drive Wire (List ℕ)
no_session = object_handles (looped false) 4 0 0 0

no_session_lem : drive false no_session ≡ refused 0x2003
unfolding object_handles HostMtp.ok usbip_python.Struct.pack usbip_python.Struct.to_le new_host
    on_out usbip_python.Mtp.Machine.new usbip_python.Mtp.Machine.Execute.perform
    usbip_python.Mtp.Machine.op_of usbip_python.Struct.from_le pipe_in wire
no_session_lem = refl

abbrev protected_delete : Drive Wire (Unit {0})
protected_delete =
    HostMtp.◌>>=◌ (open_session (looped true) 4 1) (λ _. delete_object (looped true) 4 1)

protected_delete_lem : drive true protected_delete ≡ refused 0x200E
unfolding open_session HostMtp.ok usbip_python.Struct.pack usbip_python.Struct.to_le new_host on_out
    usbip_python.Mtp.Machine.new usbip_python.Mtp.Machine.Execute.perform
    usbip_python.Mtp.Machine.op_of usbip_python.Struct.from_le pipe_in wire delete_object
    usbip_python.Mtp.Storage.new usbip_python.Mtp.Storage.Edit.starts_with
protected_delete_lem = refl

-- Data of 600 bytes, which takes two reads, and a response with one parameter.
abbrev long_data : Bytes
long_data = replicate 600 9

abbrev bytes_of : Container → Bytes
bytes_of c = or_nothing (wire c)

await_response-wire_example :
    await_response pipe 4 none (
      new_host none,
      bytes_of (data_container 0x101B 3 long_data)
          ∷ bytes_of (response 0x2001 3 (600 ∷ []))
          ∷ (5 ∷ [])
          ∷ [],
    )
    ≡ (got (0x2001, 600 ∷ [], some long_data), (new_host none, (5 ∷ []) ∷ []))
unfolding wire usbip_python.Struct.pack usbip_python.Struct.to_le
await_response-wire_example =
    await_response-wire 2 (new_host none) 0x101B 0x2001 3 long_data (600 ∷ [])
      (bytes_of (data_container 0x101B 3 long_data)) (bytes_of (response 0x2001 3 (600 ∷ [])))
      ((5 ∷ []) ∷ []) refl refl (omega arith, tt)
