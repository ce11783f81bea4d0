-- ===== src/Process/Directories.antt =====
-- `mkdir_p` of main.cpp.
use rk_firmware_flashd.Prelude.{
  ◌≡◌, refl, ◌⊎◌, inl, inr, Bool, true, false, ◌||◌, ◌==◌, List, [], ◌∷◌, ◌++◌, All, arith,
  Bool-cases, if◌then◌else◌,
}
use rk_firmware_flashd.Prelude.Text.{Bytes, beq_self, is_empty}
use rk_firmware_flashd.Process.{
  Paths, Made, made, exists, failed, on_made, ensure, mkdir_loop, mkdir_p,
}
use rk_firmware_flashd.Upload.Requests.{slash}

-- The directories that lead to a path: its front parts that end in a slash, and the path itself.
pub prefixes_from : (tmp rest : Bytes) → List Bytes
prefixes_from tmp [] = []
prefixes_from tmp (c ∷ rest) =
    let later = prefixes_from (tmp ++ (c ∷ [])) rest in
    if c == slash || is_empty rest then (tmp ++ (c ∷ [])) ∷ later else later

abbrev pub prefixes : Bytes → List Bytes
prefixes path = prefixes_from [] path

module _ (mkdir : Bytes → Made) where
  -- A path that exists, or of which `mkdir` said so.
  abbrev pub IsThere : Paths → Bytes → Type 0
  IsThere paths p = (paths p ≡ true) ⊎ (mkdir p ≡ exists)

  -- Some path neither existed nor could be made.
  abbrev pub IsRefused : Paths → Type 0
  IsRefused paths = (p : Bytes) × (paths p ≡ false) × (mkdir p ≡ failed)

  on_made-keeps :
      (answer : Made) (path : Bytes) (paths : Paths) (p : Bytes)
      → paths p ≡ true
      → (on_made answer path paths).0 p ≡ true
  on_made-keeps made path paths p h = ground (arith, h)
  on_made-keeps exists path paths p h = h
  on_made-keeps failed path paths p h = h

  ensure-keeps :
      (path : Bytes) (paths : Paths) (p : Bytes)
      → paths p ≡ true
      → (ensure mkdir path paths).0 p ≡ true
  ensure-keeps path paths p h = elim (Bool-cases (paths path)) [
    | inl there ↦ rw there h
    | inr absent ↦ rw absent (on_made-keeps (mkdir path) path paths p h)
  ]

  on_made_cases :
      (answer : Made) (path : Bytes) (paths : Paths)
      → mkdir path ≡ answer
      → paths path ≡ false
      → ((on_made answer path paths).1 ≡ true) × IsThere (on_made answer path paths).0 path
        ⊎ ((on_made answer path paths).1 ≡ false) × IsRefused paths
  on_made_cases made path paths e h = inl (refl, inl (rw (beq_self path) refl))
  on_made_cases exists path paths e h = inl (refl, inr e)
  on_made_cases failed path paths e h = inr (refl, (path, h, e))

  ensure_cases :
      (path : Bytes) (paths : Paths)
      → ((ensure mkdir path paths).1 ≡ true) × IsThere (ensure mkdir path paths).0 path
        ⊎ ((ensure mkdir path paths).1 ≡ false) × IsRefused paths
  ensure_cases path paths = elim (Bool-cases (paths path)) [
    | inl there ↦ inl (rw there refl, inl (rw there there))
    | inr absent ↦ rw absent (on_made_cases (mkdir path) path paths refl absent)
  ]

  loop-keeps :
      (tmp rest : Bytes) (paths : Paths) (p : Bytes)
      → paths p ≡ true
      → (mkdir_loop mkdir tmp rest paths).0 p ≡ true
  unfolding mkdir_loop
  loop-keeps tmp [] paths p h = h
  loop-keeps tmp (c ∷ rest) paths p h = elim (Bool-cases (c == slash || is_empty rest)) [
    | inr inside ↦ rw inside (loop-keeps (tmp ++ (c ∷ [])) rest paths p h)
    | inl cut ↦ elim (Bool-cases (ensure mkdir (tmp ++ (c ∷ [])) paths).1) [
      | inl go_on ↦
          rw (cut, go_on)
            (loop-keeps (tmp ++ (c ∷ [])) rest _ p (ensure-keeps (tmp ++ (c ∷ [])) paths p h))
      | inr stop ↦ rw (cut, stop) (ensure-keeps (tmp ++ (c ∷ [])) paths p h)
    ]
  ]

  -- The outcome of a loop from some paths.
  Outcome : Paths → Paths × Bool → List Bytes → Type 0
  Outcome before (after, answer) passed =
      (answer ≡ true) × All (IsThere after) passed ⊎ (answer ≡ false) × IsRefused before

  widen :
      (before after : Paths) (p : Bytes)
      → (before p ≡ true → after p ≡ true)
      → after p ≡ false
      → before p ≡ false
  widen before after p h e = ground (arith, h, e)

  extend :
      (before middle : Paths) (r : Paths × Bool) (path : Bytes) (passed : List Bytes)
      → ((p : Bytes) → before p ≡ true → middle p ≡ true)
      → IsThere r.0 path
      → Outcome middle r passed
      → Outcome before r (path ∷ passed)
  unfolding Outcome
  extend before middle r path passed keep there (inl (answer, h)) = inl (answer, (there, h))
  extend before middle r path passed keep there (inr (answer, (p, absent, e))) =
      inr (answer, (p, widen before middle p (keep p) absent, e))

  stays :
      (tmp rest : Bytes) (paths : Paths) (p : Bytes)
      → IsThere paths p
      → IsThere (mkdir_loop mkdir tmp rest paths).0 p
  stays tmp rest paths p (inl h) = inl (loop-keeps tmp rest paths p h)
  stays tmp rest paths p (inr e) = inr e

  start-Outcome : (paths : Paths) → Outcome paths (paths, true) []
  unfolding Outcome
  start-Outcome paths = inl (refl, tt)

  stop-Outcome :
      (paths after : Paths) (passed : List Bytes)
      → IsRefused paths
      → Outcome paths (after, false) passed
  unfolding Outcome
  stop-Outcome paths after passed refused = inr (refl, refused)

  loop-Outcome :
      (tmp rest : Bytes) (paths : Paths)
      → Outcome paths (mkdir_loop mkdir tmp rest paths) (prefixes_from tmp rest)
  unfolding mkdir_loop prefixes_from
  loop-Outcome tmp [] paths = start-Outcome paths
  loop-Outcome tmp (c ∷ rest) paths = elim (Bool-cases (c == slash || is_empty rest)) [
    | inr inside ↦ rw inside (loop-Outcome (tmp ++ (c ∷ [])) rest paths)
    | inl cut ↦ rw cut (elim (ensure_cases (tmp ++ (c ∷ [])) paths) [
      | inl (go_on, there) ↦
          let after = (ensure mkdir (tmp ++ (c ∷ [])) paths).0 in
          rw go_on (
            extend paths after _ (tmp ++ (c ∷ [])) _ (ensure-keeps (tmp ++ (c ∷ [])) paths)
              (stays (tmp ++ (c ∷ [])) rest after _ there)
              (loop-Outcome (tmp ++ (c ∷ [])) rest after))
      | inr (stop, refused) ↦ rw stop (stop-Outcome paths _ _ refused)
    ])
  ]

  -- Where `mkdir_p` answers true, every directory that leads to the path exists afterwards, or
  -- `mkdir` said that it does; where it answers false, some path did not exist before and could not
  -- be made. What existed before is kept in both cases.
  pub mkdir_p_lem :
      (path other : Bytes) (paths : Paths)
      → paths other ≡ true
      → ((mkdir_p mkdir path paths).0 other ≡ true)
        × (((mkdir_p mkdir path paths).1 ≡ true)
              × All (IsThere (mkdir_p mkdir path paths).0) (prefixes path)
            ⊎ ((mkdir_p mkdir path paths).1 ≡ false) × IsRefused paths)
  unfolding Outcome
  mkdir_p_lem path other paths h = (loop-keeps [] path paths other h, loop-Outcome [] path paths)
