-- ===== src/SerialDaemon/Potential.antt =====
-- Schedules of the two threads, and potentials that their turns lower.
use rk_firmware_flashd.Configuration.{Config}
use rk_firmware_flashd.Lock.{Owner}
use rk_firmware_flashd.Prelude.{
  ℕ, suc, ◌-◌, ◌≤◌, ◌≡◌, refl, Bool, true, false, List, [], ◌∷◌, ◌++◌, arith, if◌then◌else◌,
}
use rk_firmware_flashd.Prelude.Text.{Bytes}
use rk_firmware_flashd.SerialDaemon.{System, Turn, main_turn, reader_turn, step, run}

abbrev pub is_main : Turn → Bool
is_main main_turn = true
is_main (reader_turn _) = false

abbrev pub is_reader : Turn → Bool
is_reader main_turn = false
is_reader (reader_turn _) = true

abbrev pub count : (Turn → Bool) → List Turn → ℕ
count test [] = 0
count test (turn ∷ turns) = let n = count test turns in if test turn then suc n else n

module _ (cfg : Config) (handler : Bytes → Owner → Bytes × Owner) where
  pub run-append :
      (turns turns' : List Turn) (s : System)
      → run cfg handler (turns ++ turns') s ≡ run cfg handler turns' (run cfg handler turns s)
  unfolding run
  run-append [] turns' s = refl
  run-append (turn ∷ turns) turns' s = run-append turns turns' (step cfg handler turn s)

  -- A potential that no turn raises and that each turn of one kind lowers comes to 0 after enough
  -- turns of that kind.
  abbrev pub Lowers : (System → Type 0) → (System → ℕ) → (Turn → Bool) → Type 0
  Lowers P potential lowers =
      (turn : Turn) (s : System)
      → P s
      → P (step cfg handler turn s)
        × (potential (step cfg handler turn s)
            ≤ (if lowers turn then potential s - 1 else potential s))

  pub descend :
      (P : System → Type 0) (potential : System → ℕ) (lowers : Turn → Bool)
      → Lowers P potential lowers
      → (turns : List Turn) (s : System) → P s
      → potential s ≤ count lowers turns
      → P (run cfg handler turns s) × (potential (run cfg handler turns s) ≡ 0)
  unfolding run
  descend P potential lowers keep [] s p h = (p, omega arith)
  descend P potential lowers keep (turn ∷ turns) s p h =
      let (p', le) = keep turn s p in
      descend P potential lowers keep turns (step cfg handler turn s) p'
        (below (lowers turn) _ _ _ le h)
    where
      below :
          (b : Bool) (after before n : ℕ)
          → after ≤ (if b then before - 1 else before)
          → before ≤ (if b then suc n else n)
          → after ≤ n
      below true after before n le h = omega arith
      below false after before n le h = omega arith
