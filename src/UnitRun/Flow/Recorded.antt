-- ===== src/UnitRun/Flow/Recorded.antt =====
-- What a failed step leaves in the status file.
use itzo.Base.{
  ◌≡◌, refl, sym, subst, true, Str, Error, ◌⊎◌, inl, inr, nat_eq, str_eq, some, lit, ◌++◌,
}
use itzo.Io.{of_sum, ◌>>=◌}
use itzo.Api.{UnitStatus, no_state}
use itzo.RunUnit.Status.{get_status, with_state}
use itzo.Io.Os.{Os, write_file, perform}
use itzo.Io.Os.Laws.{perform-state}
use itzo.UnitDir.{Codecs, OpenedUnit, status_file_of}
use itzo.UnitRun.{RunState, report, set_state}

module _ {W : Type 0} (os : Os W) (codecs : Codecs) (error_text : Error → Str)
    (u : OpenedUnit) where
  -- The status with a failed start in place of its state.
  abbrev pub failed : Error → UnitStatus → UnitStatus
  failed e status = record status {
    state = record no_state {
      waiting =
          some (record { reason = lit "Failed to start: " ++ error_text e; start_failure = true });
    };
  }

  -- What the status file holds, at the path that it has by now.
  abbrev pub held : RunState W → Error ⊎ UnitStatus
  held t = get_status codecs.status u.unit (status_file_of (os.read_file t.status_path t.world))

  -- The failure was put into the status file: the status that was there was written back with the
  -- failed start, whether the call then gave an error or not; or nothing was written, because the
  -- status could not be read or could not be encoded.
  pub data Recorded (e : Error) (t : RunState W) : RunState W → Type 0 where
    unread : (x : Error) → held t ≡ inl x → Recorded e t t
    unwritten :
        (status : UnitStatus) (x : Error)
        → held t ≡ inr status
        → codecs.status.marshal (failed e status) ≡ inl x
        → Recorded e t t
    written :
        (status : UnitStatus) (buf : Str)
        → held t ≡ inr status
        → codecs.status.marshal (failed e status) ≡ inr buf
        → Recorded e t (record t { world = (os.call (write_file t.status_path buf 384) t.world).1 })

  encoded-Recorded :
      (e : Error) (t : RunState W) (status : UnitStatus) (m : Error ⊎ Str)
      → held t ≡ inr status
      → codecs.status.marshal (failed e status) ≡ m
      → Recorded e t (record t {
        world = ((of_sum m >>= λ buf. perform os (write_file t.status_path buf 384)) t.world).1;
      })
  encoded-Recorded e t status (inl x) read m = unwritten status x read m
  encoded-Recorded e t status (inr buf) read m =
      subst (λ w. Recorded e t (record t { world = w }))
        (sym (perform-state os (write_file t.status_path buf 384) t.world))
        (written status buf read m)

  read-Recorded :
      (e : Error) (t : RunState W) (r : Error ⊎ UnitStatus)
      → held t ≡ r
      → Recorded e t (record t {
        world =
            ((of_sum r >>= (λ status. of_sum (codecs.status.marshal (failed e status)) >>= λ buf.
            perform os (write_file t.status_path buf 384)))
              t.world).1;
      })
  read-Recorded e t (inl x) read = unread x read
  read-Recorded e t (inr status) read = encoded-Recorded e t status _ read refl

  pub report-Recorded :
      (e : Error) (t : RunState W) → Recorded e t (report os codecs error_text u e t)
  unfolding report set_state with_state
  report-Recorded e t = read-Recorded e t (held t) refl
