-- ===== src/Text/Laws.antt =====
-- Laws of the functions on bytes.
use docker_systemd.Base.{
  ℕ, ◌≡◌, ◌≢◌, ◌↔◌, inl, inr, refl, ap, ◌∙◌, arith, true, false, List, [], ◌∷◌, ◌++◌, Bytes, All,
  ◌==◌, ◌-◌, leb, length, length-append, take-length-append, drop-length-append, Bool-cases,
}
use docker_systemd.Text.{equal, has_suffix, trim_suffix, onto_first, split, join}

pub equal_iff : (text other : Bytes) → (equal text other ≡ true) ↔ (text ≡ other)
unfolding equal
equal_iff [] _ = ground arith
equal_iff _ [] = ground arith
equal_iff (c ∷ text) (d ∷ other) = ground (arith, equal_iff text other)

pub equal_self : (a : Bytes) → equal a a ≡ true
equal_self a = (equal_iff a a).1 refl

pub has_suffix-append : (s p : Bytes) → has_suffix (s ++ p) p ≡ true
unfolding has_suffix
has_suffix-append s p =
    let size : length (s ++ p) - length p ≡ length s = omega (arith, length-append s p) in
    let long : leb (length p) (length (s ++ p)) ≡ true = ground (arith, length-append s p) in
    rw (long, size, drop-length-append s p, equal_self p) refl

pub trim_suffix-append : (s p : Bytes) → trim_suffix (s ++ p) p ≡ s
unfolding trim_suffix
trim_suffix-append s p =
    let size : length (s ++ p) - length p ≡ length s = omega (arith, length-append s p) in
    rw (has_suffix-append s p, size) (take-length-append s p)

pub split-ne-nil : (s : Bytes) (sep : ℕ) → split s sep ≢ []
unfolding split
split-ne-nil [] sep e = cc
split-ne-nil (c ∷ s) sep e = ground (arith, split-ne-nil s sep)

join-nil :
    (sep : ℕ) (pieces : List Bytes) → pieces ≢ [] → join ([] ∷ pieces) sep ≡ sep ∷ join pieces sep
unfolding join
join-nil sep [] ne = absurd (ne refl)
join-nil sep (p ∷ ps) ne = refl

join-onto_first :
    (c sep : ℕ) (pieces : List Bytes)
    → pieces ≢ []
    → join (onto_first c pieces) sep ≡ c ∷ join pieces sep
unfolding join
join-onto_first c sep [] ne = absurd (ne refl)
join-onto_first c sep (p ∷ []) ne = refl
join-onto_first c sep (p ∷ q ∷ ps) ne = refl

-- Joining the pieces by the separator gives the text back.
pub join-split : (s : Bytes) (sep : ℕ) → join (split s sep) sep ≡ s
unfolding split join
join-split [] sep = refl
join-split (c ∷ s) sep = elim (Bool-cases (c == sep)) [
  | inl here ↦
      let e : c ≡ sep = ground arith in
      rw (here, split) (join-nil sep (split s sep) (split-ne-nil s sep) ∙ cc (join-split s sep))
  | inr other ↦
      rw (other, split)
        (join-onto_first c sep (split s sep) (split-ne-nil s sep) ∙ ap (◌∷◌ c) (join-split s sep))
]

-- A text without the separator is a single piece.
pub split_whole : (s : Bytes) (sep : ℕ) → All (λ c. (c == sep) ≡ false) s → split s sep ≡ s ∷ []
unfolding split
split_whole [] sep plain = refl
split_whole (c ∷ s) sep (other, plain) = rw (other, split_whole s sep plain) refl

-- What stands before the first separator is the first piece.
pub split_piece :
    (s t : Bytes) (sep : ℕ)
    → All (λ c. (c == sep) ≡ false) s
    → split (s ++ sep ∷ t) sep ≡ s ∷ split t sep
unfolding split
split_piece [] t sep plain = let same : (sep == sep) ≡ true = ground arith in rw same refl
split_piece (c ∷ s) t sep (other, plain) = rw (other, split_piece s t sep plain) refl
