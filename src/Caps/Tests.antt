-- ===== src/Caps/Tests.antt =====
-- A unit that adds one capability and drops another.
use itzo.Base.{◌≡◌, refl, true, false, none, List, [], ◌∷◌, Str, lit, inr}
use itzo.Caps.{in_slice, all_capabilities, tweak_capabilities, normalize_legacy_capabilities}
use itzo.Caps.Laws.{granted, tweak_capabilities_lem}

abbrev kill : Str
kill = lit "CAP_KILL"

abbrev chown : Str
chown = lit "CAP_CHOWN"

abbrev known : List Str
known = kill ∷ chown ∷ lit "CAP_NET_RAW" ∷ []

normalize_kill : normalize_legacy_capabilities known (lit "kill" ∷ []) ≡ inr (kill ∷ [])
unfolding normalize_legacy_capabilities lit
normalize_kill = refl

normalize_chown : normalize_legacy_capabilities known (lit "cap_chown" ∷ []) ≡ inr (chown ∷ [])
unfolding normalize_legacy_capabilities lit
normalize_chown = refl

tweaked :
    tweak_capabilities known (chown ∷ []) (lit "kill" ∷ []) (lit "cap_chown" ∷ []) none false
    ≡ inr (kill ∷ [])
unfolding tweak_capabilities lit
tweaked = refl

kill_granted : in_slice (kill ∷ []) kill ≡ true
unfolding in_slice lit
kill_granted = refl

tweak_capabilities_lem_example :
    (result : List Str) × (tweak_capabilities known
        (chown ∷ [])
        (lit "kill" ∷ [])
        (lit "cap_chown" ∷ [])
        none
        false
      ≡ inr result)
    × ((s : Str)
        → in_slice result s
          ≡ granted
              (in_slice known s)
              (in_slice (chown ∷ []) s)
              (in_slice (kill ∷ []) s)
              (in_slice (chown ∷ []) s)
              (in_slice (kill ∷ []) all_capabilities)
              (in_slice (chown ∷ []) all_capabilities))
tweak_capabilities_lem_example =
    tweak_capabilities_lem known (chown ∷ []) (lit "kill" ∷ []) (lit "cap_chown" ∷ []) (kill ∷ [])
      (chown ∷ []) normalize_kill normalize_chown
