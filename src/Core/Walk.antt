-- ===== src/Core/Walk.antt =====
-- usbip/core.py, `iter_descriptors`: the walk over concatenated descriptors.
pub mod Laws
use usbip_python.Base.{
  ℕ, zero, suc, ◌+◌, List, [], ◌∷◌, ltb, leb, if◌then◌else◌, length, take, drop, get_or,
}
use usbip_python.Struct.{Bytes}

-- The loop, from index i; each round but the last adds 2 to i at least, so it needs no more
-- rounds than the blob has bytes.
unfoldable pub iter_from : ℕ → Bytes → ℕ → List Bytes
iter_from zero blob i = []
iter_from (suc fuel) blob i =
    let blen = get_or blob i 0 in
    let rest = take blen (drop i blob) ∷ iter_from fuel blob (i + blen) in
    if leb (i + 2) (length blob) then (if ltb blen 2 then [] else rest) else []

-- The generator as the list of what it yields.
unfoldable pub iter_descriptors : Bytes → ℕ → List Bytes
iter_descriptors blob offset = iter_from (length blob) blob offset
