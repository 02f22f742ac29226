-- ===== src/Prelude/Loops.antt =====
-- What a `while` loop of the source does, without any fuel.
use fs.Prelude.{Bool, true, false, ◌≡◌, Error, Out, ok, err, panic}

-- The runs of a loop that end: from a value of its variables and a state to the last value, or the failure of a
-- round, and the state that it leaves. A loop that goes on forever has none.
pub data While {S C : Type 0} (test : C → Bool) (body : C → S → Out C × S)
    : C → S → Out C × S → Type 0 where
  ends : {c : C} {s : S} → test c ≡ false → While test body c s (ok c, s)
  turns :
      {c c' : C} {s s' : S} {r : Out C × S}
      → test c ≡ true
      → body c s ≡ (ok c', s')
      → While test body c' s' r
      → While test body c s r
  fails :
      {c : C} {s s' : S} {e : Error}
      → test c ≡ true
      → body c s ≡ (err e, s')
      → While test body c s (err e, s')
  panics :
      {c : C} {s s' : S} → test c ≡ true → body c s ≡ (panic, s') → While test body c s (panic, s')
