-- ===== src/Analog/Elements/Swaps.antt =====
-- analog/circuit/elements/: the order of the additions at an entry and at its mirror image, by the
-- nodes that their row and their column meet.
use phu_audio_lib.Base.{◌≡◌, refl, arith, Bool, false, ◌&&◌, if◌then◌else◌}

abbrev pub when {ℓ} : {A : Type ℓ} → Bool → (A → A) → A → A
when b f x = if b then f x else x

module _ {ℓ} {A : Type ℓ} (add sub : A → A) where
  -- A conductance: `p` and `n` are met by the row, `p'` and `n'` by the column.
  pub conductance-swap :
      (p n p' n' : Bool) (x : A)
      → when (n && p') sub (when (p && n') sub (when (n && n') add (when (p && p') add x)))
        ≡ when (n' && p) sub (when (p' && n) sub (when (n' && n) add (when (p' && p) add x)))
  conductance-swap false false false false x = refl
  conductance-swap p n p' n' x = ground arith

  pub source-swap :
      (p n v p' n' v' : Bool) (x : A)
      → (p && p') ≡ false
      → (n && n') ≡ false
      → (v && v') ≡ false
      → when (n && v') sub (when (v && n') sub (when (p && v') add (when (v && p') add x)))
        ≡ when (n' && v) sub (when (v' && n) sub (when (p' && v) add (when (v' && p) add x)))
  source-swap false false false false false false x hp hn hv = refl
  source-swap p n v p' n' v' x hp hn hv = ground arith

  pub mutual-swap :
      (p1 n1 p2 n2 p1' n1' p2' n2' : Bool) (x : A)
      → (p1 && p1') ≡ false
      → (n1 && n1') ≡ false
      → (p2 && p2') ≡ false
      → (n2 && n2') ≡ false
      → when (n2 && n1') add (
          when (n2 && p1') sub (
            when (p2 && n1') sub (
              when (p2 && p1') add (
                when
                  (n1 && n2')
                  add
                  (when (n1 && p2') sub (when (p1 && n2') sub (when (p1 && p2') add x)))))))
        ≡ when (n2' && n1) add (
            when (n2' && p1) sub (
              when (p2' && n1) sub (
                when (p2' && p1) add (
                  when
                    (n1' && n2)
                    add
                    (when (n1' && p2) sub (when (p1' && n2) sub (when (p1' && p2) add x)))))))
  mutual-swap false false false false false false false false x h1 h2 h3 h4 = refl
  mutual-swap p1 n1 p2 n2 p1' n1' p2' n2' x h1 h2 h3 h4 = ground arith
