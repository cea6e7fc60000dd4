-- ===== src/Wire/Position.antt =====
-- systemd/main.go: the buffer at the position `bufloc`.
use docker_systemd.Base.{
  ℕ, suc, ◌+◌, ◌<◌, ◌≡◌, ap, ◌∙◌, arith, [], ◌∷◌, ◌++◌, Bytes, length, drop, get_or,
  take-length-append,
}
use docker_systemd.Wire.{le16, u16_at, slice}

get_or-append :
    (pre suf : Bytes) (i d : ℕ) → get_or (pre ++ suf) (length pre + i) d ≡ get_or suf i d
get_or-append [] suf i d = let e : 0 + i ≡ i = omega arith in rw e
get_or-append (x ∷ pre) suf i d =
    let e : suc (length pre) + i ≡ suc (length pre + i) = omega arith in
    rw e (get_or-append pre suf i d)

drop-add : (k : ℕ) (pre suf : Bytes) → drop (length pre + k) (pre ++ suf) ≡ drop k suf
drop-add k [] suf = let e : 0 + k ≡ k = omega arith in rw e
drop-add k (x ∷ pre) suf =
    let e : suc (length pre) + k ≡ suc (length pre + k) = omega arith in rw e (drop-add k pre suf)

pub u16_at-append : (pre suf : Bytes) → u16_at (pre ++ suf) (length pre) ≡ u16_at suf 0
u16_at-append pre suf =
    let e : length pre ≡ length pre + 0 = omega arith in
    let low = ap (get_or (pre ++ suf)) e in
    let here : get_or (pre ++ suf) (length pre) 0 ≡ get_or suf 0 0 =
      (λ i. low i 0) ∙ get_or-append pre suf 0 0 in
    let next : get_or (pre ++ suf) (length pre + 1) 0 ≡ get_or suf (0 + 1) 0 =
      get_or-append pre suf 1 0 in
    omega (arith, here, next)

pub slice-append :
    (pre : Bytes) (a b : ℕ) (arg rest : Bytes)
    → slice (pre ++ (a ∷ b ∷ (arg ++ rest))) (length pre + 2) (length arg) ≡ arg
slice-append pre a b arg rest =
    rw (drop-add 2 pre (a ∷ b ∷ (arg ++ rest))) (take-length-append arg rest)

pub u16_at-le16 : (n : ℕ) (rest : Bytes) → n < 65536 → u16_at (le16 n ++ rest) 0 ≡ n
u16_at-le16 n rest h = omega arith
