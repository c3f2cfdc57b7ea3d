-- ===== src/HostMsc/Loop.antt =====
-- The driver connected to the device class: what the class does to its two endpoints is what the
-- driver's transfers meet. A transfer that would wait for data fails.
use Prim.Native.Nat.{bit_and}
use usbip_python.Base.{
  ℕ, Bool, true, false, List, [], ◌∷◌, ◌++◌, none, some, ◌==◌, if◌then◌else◌, leb, length, take,
  drop,
}
use usbip_python.Struct.{Bytes}
use usbip_python.Device.State.{Answer, reply, stalls, crash}
use usbip_python.Msc.{Store, Msc}
use usbip_python.Msc.Bot.{Call, in_write, in_stall, out_stall, Effect, on_out, on_control}
use usbip_python.HostMsc.{Result, got, stalled, failed, Handle}

pub record Link (M : Type 0) : Type 0 where
  pub device : Msc M
  pub queue : List Bytes
  pub in_halted : Bool
  pub out_halted : Bool

abbrev pub answered : ℕ → Answer → Result Bytes
answered n (reply bs) = got (take n bs)
answered n stalls = stalled
answered n crash = failed

module _ {M : Type 0} where
  -- The calls of the class, in order.
  unfoldable pub apply_calls : List Call → Link M → Link M
  apply_calls [] l = l
  apply_calls (in_write bs ∷ calls) l =
      apply_calls calls (record l { queue = l.queue ++ (bs ∷ []) })
  apply_calls (in_stall ∷ calls) l = apply_calls calls (record l { in_halted = true })
  apply_calls (out_stall ∷ calls) l = apply_calls calls (record l { out_halted = true })

  -- Endpoint._pop_locked: what a transfer of `n` bytes takes of the queue.
  unfoldable pub popped : List Bytes → ℕ → Link M → Result Bytes × Link M
  popped [] n l = (failed, l)
  popped (c ∷ q) n l =
      if leb (length c) n
      then (got c, record l { queue = q })
      else (got (take n c), record l { queue = drop n c ∷ q })

  abbrev pub effected : Link M → Effect M → Result (Unit {0}) × Link M
  effected l none = (failed, l)
  effected l (some (dev, calls)) = (got tt, apply_calls calls (record l { device = dev }))

  unfoldable pub loop : Store M → Handle (Link M)
  unfolding apply_calls popped
  loop store = record {
    control_in = λ kind request value index n l.
        let (a, dev) = on_control l.device (record {
          bm_request_type = kind;
          b_request = request;
          w_value = value;
          w_index = index;
          w_length = n;
        }) in
        (answered n a, record l { device = dev });
    bulk_in = λ addr n l. if l.in_halted then (stalled, l) else popped l.queue n l;
    bulk_out =
        λ addr bs l. if l.out_halted then (stalled, l) else effected l (on_out store l.device bs);
    clear_halt = λ addr l. (
      got tt,
      if bit_and addr 0x80 == 0
          then record l { out_halted = false }
          else record l { in_halted = false },
    );
  }
