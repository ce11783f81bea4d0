-- ===== src/Checksum/Md5/Stream.antt =====
-- `MD5::update` on each of its three paths: the object stands for the bytes that it was fed.
use native.Mathlib.Decide.{dec_lt, ℕ_discrete}
use rk_firmware_flashd.Prelude.{
  ℕ, suc, ◌+◌, ◌-◌, ◌%◌, ◌≤◌, ◌<◌, ◌≡◌, refl, sym, ap, subst, ◌∙◌, ◌≢◌, [], ◌++◌, append-nil,
  append_assoc, arith, ne→==, le→leb, lt→leb, length, take, drop, length-append, take-append-drop,
  length-take, length-drop, drop_all,
}
use rk_firmware_flashd.Prelude.Text.{Bytes}
use rk_firmware_flashd.Checksum.Md5.Blocks.{
  absorb, absorb-append, Runs, length-store, nil_of_length, take-store, blocks-Runs, blocks-count,
}
use rk_firmware_flashd.Checksum.Md5.{Md5, transform, seed, reset, store, blocks, update, u64}

-- The three paths of `update`.
module _ (m : Md5) (bytes : Bytes) where
  abbrev counted : Md5
  counted = record m { count = u64 (m.count + length bytes) }

  update_aligned : m.count % 64 ≡ 0 → update m bytes ≡ blocks (suc (length bytes)) counted bytes
  unfolding update
  update_aligned e = rw e

  update_filling :
      (index : ℕ)
      → m.count % 64 ≡ index
      → index ≢ 0
      → 64 - index ≤ length bytes
      → update m bytes ≡ (
          let filled = store m.buffer index (take (64 - index) bytes) in
          blocks
            (suc (length bytes))
            (record counted { state = transform m.state filled; buffer = filled })
            (drop (64 - index) bytes))
  unfolding update
  update_filling index e h p = rw (e, ne→== index 0 h, le→leb (64 - index) (length bytes) p)

  update_keeping :
      (index : ℕ)
      → m.count % 64 ≡ index
      → index ≢ 0
      → length bytes < 64 - index
      → update m bytes ≡ record counted { buffer = store m.buffer index bytes }
  unfolding update
  update_keeping index e h p = rw (e, ne→== index 0 h, lt→leb (64 - index) (length bytes) p)

-- The bytes that the object has been fed: `count_` holds their number.
pub record Holds (m : Md5) (bytes : Bytes) : Type 0 where
  pub runs : Runs m bytes
  pub open runs use *
  pub counts : m.count ≡ u64 (length bytes)

index_lem : (m : Md5) (bytes : Bytes) (h : Holds m bytes) → m.count % 64 ≡ length h.rest
index_lem m bytes h =
    omega (arith, h.counts, ap length h.split, length-append h.done h.rest, h.whole, h.short)

abbrev Extended : Md5 → Bytes → Bytes → Type 0
Extended m bytes more =
    Runs (update m more) (bytes ++ more) × ((update m more).count ≡ u64 (m.count + length more))

aligned-Extended :
    (m : Md5) (bytes more : Bytes) (h : Holds m bytes) → length h.rest ≡ 0 → Extended m bytes more
aligned-Extended m bytes more h e =
    let empty : bytes ≡ h.done =
      h.split ∙ ap (◌++◌ h.done) (nil_of_length h.rest e) ∙ append-nil h.done in
    rw (update_aligned m more (index_lem m bytes h ∙ e)) (
      subst (λ t. Runs (blocks (suc (length more)) (counted m more) more) (t ++ more)) (sym empty)
          (blocks-Runs (suc (length more)) (counted m more) h.done more h.number (omega arith)
            h.whole h.absorbed h.room),
      blocks-count (suc (length more)) (counted m more) more,
    )

-- A buffer filled to its end holds one block.
filled_lem :
    (buffer rest part : Bytes)
    → length buffer ≡ 64
    → length rest + length part ≡ 64
    → take (length rest) buffer ≡ rest
    → store buffer (length rest) part ≡ rest ++ part
filled_lem buffer rest part room fills kept =
    rw (kept, drop_all (length rest + length part) buffer (omega arith)) (append-nil (rest ++ part))

module _ (m : Md5) (bytes more : Bytes) (h : Holds m bytes) where
  filling-Extended : length h.rest ≢ 0 → 64 - length h.rest ≤ length more → Extended m bytes more
  filling-Extended started fits =
      rw (update_filling m more (length h.rest) (index_lem m bytes h) started fits) (
        subst (Runs out) joined (
            blocks-Runs (suc (length more)) ready (h.done ++ filled) (drop free more) (suc h.number)
              (omega (arith, length-drop free more))
              (omega (arith, length-append h.done filled, size, h.whole))
              (ap (λ s. transform s filled) h.absorbed
                ∙ sym (absorb-append h.number seed h.done filled h.whole size))
              size),
        blocks-count (suc (length more)) ready (drop free more),
      )
    where
      free : ℕ
      free = 64 - length h.rest

      filled : Bytes
      filled = store m.buffer (length h.rest) (take free more)

      ready : Md5
      ready = record m {
        state = transform m.state filled;
        count = u64 (m.count + length more);
        buffer = filled;
      }

      out : Md5
      out = blocks (suc (length more)) ready (drop free more)

      size : length filled ≡ 64
      size =
          length-store m.buffer (length h.rest) (take free more) h.room
            (omega (arith, length-take free more))

      content : filled ≡ h.rest ++ take free more
      content =
          filled_lem m.buffer h.rest (take free more) h.room
            (omega (arith, length-take free more, h.short)) h.kept

      joined : (h.done ++ filled) ++ drop free more ≡ bytes ++ more
      joined = rw (content, h.split) (simp (append_assoc, take-append-drop))

  keeping-Extended : length h.rest ≢ 0 → length more < 64 - length h.rest → Extended m bytes more
  keeping-Extended started fits =
      rw (update_keeping m more (length h.rest) (index_lem m bytes h) started fits) (
        record {
          done = h.done;
          rest = h.rest ++ more;
          number = h.number;
          whole = h.whole;
          split = ap (λ t. t ++ more) h.split ∙ append_assoc h.done h.rest more;
          short = omega (arith, length-append h.rest more);
          absorbed = h.absorbed;
          kept = take-store m.buffer h.rest more h.kept;
          room = length-store m.buffer (length h.rest) more h.room (omega arith);
        },
        refl,
      )

  update-Extended : Extended m bytes more
  update-Extended = elim (ℕ_discrete (length h.rest) 0) [
    | yes e ↦ aligned-Extended m bytes more h e
    | no ne ↦ elim (dec_lt (length more) (64 - length h.rest)) [
      | yes fits ↦ keeping-Extended ne fits
      | no over ↦ filling-Extended ne (omega arith)
    ]
  ]

  -- An update appends to the bytes that the object stands for.
  pub update-Holds : Holds (update m more) (bytes ++ more)
  update-Holds = record {
    runs = update-Extended.0;
    counts = omega (arith, update-Extended.1, h.counts, length-append bytes more);
  }

pub reset-Holds : Holds reset []
reset-Holds = record {
  runs = record {
    done = [];
    rest = [];
    number = 0;
    whole = refl;
    split = refl;
    short = omega arith;
    absorbed = unfold absorb in refl;
    kept = refl;
    room = refl;
  };
  counts = refl;
}
