-- ===== src/Prober/Probe/Laws.antt =====
-- The retries of a probe, and what its verdict says of them.
use itzo.Base.{◌≡◌, none, some, List, [], ◌∷◌, ◌++◌, Error, All, arith, inr, ℕ, ◌<◌, pos, ◌↔◌}
use itzo.Api.{IntOrString, int}
use itzo.Prober.Probe.{ProbeReply, run_probe_with_retries, retry_from, extract_port}

-- The probe could not be made.
abbrev pub Errs : ProbeReply → Type 0
Errs r = (e : Error) × (r.err ≡ some e)

retry_from-skips :
    (last : ProbeReply) (errors : List ProbeReply) (r : ProbeReply) (rest : List ProbeReply)
    → All Errs errors
    → r.err ≡ none
    → retry_from last (errors ++ r ∷ rest) ≡ r
unfolding retry_from
retry_from-skips last [] r rest hs h = simp h
retry_from-skips last (x ∷ errors) r rest hs h = rw hs.0.1 (retry_from-skips x errors r rest hs.1 h)

retry_from-last :
    (last : ProbeReply) (errors : List ProbeReply) (r : ProbeReply)
    → All Errs errors
    → Errs r
    → retry_from last (errors ++ r ∷ []) ≡ r
unfolding retry_from
retry_from-last last [] r hs h = simp h.1
retry_from-last last (x ∷ errors) r hs h = rw hs.0.1 (retry_from-last x errors r hs.1 h)

-- After any number of replies with errors, the reply of the retries is the first without one,
-- whatever the rounds after it would have got.
run_probe_with_retries-skips :
    (errors : List ProbeReply) (r : ProbeReply) (rest : List ProbeReply)
    → All Errs errors
    → r.err ≡ none
    → run_probe_with_retries (errors ++ r ∷ rest) ≡ r
unfolding run_probe_with_retries
run_probe_with_retries-skips = retry_from-skips _

-- With errors only, the reply of the retries is the last one.
run_probe_with_retries-last :
    (errors : List ProbeReply) (r : ProbeReply)
    → All Errs errors
    → Errs r
    → run_probe_with_retries (errors ++ r ∷ []) ≡ r
unfolding run_probe_with_retries
run_probe_with_retries-last = retry_from-last _

-- A port is taken exactly when it is a number from 1 to 65535, and is then the number itself.
extract_port-inr_iff :
    (port : IntOrString) (n : ℕ)
    → (extract_port port ≡ inr n) ↔ ((port ≡ int (pos n)) × (0 < n) × (n < 65536))
unfolding extract_port
extract_port-inr_iff port n = ground arith
