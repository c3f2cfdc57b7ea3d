-- ===== src/Tests/Transport.antt =====
-- usbip/transport.py: runs of a listener.
use usbip_python.Base.{◌≡◌, refl, List, [], ◌∷◌, none, some, map, Option}
use usbip_python.Core.Text.{Text}
use usbip_python.Core.MsOs.{codes}
use usbip_python.Transport.{Plugged, new, Op, plugs, unplugs, step, run}
use usbip_python.Transport.Laws.{Fresh, IsValid, run-IsValid}

abbrev device : Plugged
device = record { ident = 0; busid = none; busnum = 0; devnum = 0 }

abbrev script : List Op
script =
    plugs device
    ∷ plugs (record device { ident = 1 })
    ∷ unplugs 0
    ∷ plugs (record device { ident = 2 })
    ∷ []

abbrev busids : List Plugged → List (Option Text)
busids ds = map (λ d. d.busid) ds

-- Two devices end up with one busid, for the third gets the number after a count of two.
two_share_a_busid : busids (run new script).devices ≡ some (codes "1-2") ∷ some (codes "1-2") ∷ []
unfolding run
two_share_a_busid = refl

script-Fresh : Fresh new script
unfolding run step
script-Fresh = (tt, ((refl, tt), ((refl, tt), tt)))

run-IsValid_example : IsValid (run new script)
run-IsValid_example = run-IsValid script script-Fresh
