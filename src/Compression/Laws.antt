-- ===== src/Compression/Laws.antt =====
-- The loops of local-storage/src/compression.rs against plain descriptions of what they return.
use rust_local_storage_cdn.Prelude.{
  ℕ, zero, suc, ◌+◌, ◌-◌, ◌≤◌, ◌<◌, Bytes, [], ◌∷◌, ◌++◌, length, length-take, length-drop, take,
  drop, take-append-drop, drop-drop, ok, ◌≡◌, refl, sym, ap, ◌∙◌, arith,
}
use Prim.Native.Nat.{min}
use mathlib.Core.List.{append-nil, append_assoc}
use rust_local_storage_cdn.Codec.{Codec, IsCodec}
use rust_local_storage_cdn.Codec.Steps.{whole, read-whole_nil, read-whole_cons}
use rust_local_storage_cdn.Compression.{zstd_loop}
use rust_local_storage_cdn.Compression.Range.{skip_loop, fill_loop}

rejoin :
    (acc : Bytes) (b j : ℕ) (bs : Bytes) → (acc ++ (b ∷ take j bs)) ++ drop j bs ≡ acc ++ (b ∷ bs)
rejoin acc b j bs =
    append_assoc acc (b ∷ take j bs) (drop j bs)
    ∙ ap (λ (r : Bytes). acc ++ (b ∷ r)) (take-append-drop j bs)

take_nil : (n : ℕ) → take {A = ℕ} n [] ≡ []
take_nil zero = refl
take_nil (suc n) = refl

take-append-take :
    (j m n : ℕ) (bs : Bytes) → j + m ≡ n → take j bs ++ take m (drop j bs) ≡ take n bs
take-append-take zero m n bs h = ap (λ (k : ℕ). take k bs) (omega arith)
take-append-take (suc j) m n [] h = take_nil m ∙ sym (take_nil n)
take-append-take (suc j) m zero (b ∷ bs) h = absurd (omega arith)
take-append-take (suc j) m (suc n) (b ∷ bs) h =
    ap (λ (r : Bytes). b ∷ r) (take-append-take j m n bs (omega arith))

rejoin_take :
    (acc : Bytes) (b j m n : ℕ) (bs : Bytes)
    → j + m ≡ n
    → (acc ++ (b ∷ take j bs)) ++ take m (drop j bs) ≡ acc ++ (b ∷ take n bs)
rejoin_take acc b j m n bs h =
    append_assoc acc (b ∷ take j bs) (take m (drop j bs))
    ∙ ap (λ (r : Bytes). acc ++ (b ∷ r)) (take-append-take j m n bs h)

module _ (c : Codec) (law : IsCodec c) where
  pub zstd_loop-whole :
      (f : ℕ) (acc bs : Bytes) → length bs < f → zstd_loop c f acc (whole bs) ≡ ok (acc ++ bs)
  unfolding zstd_loop
  zstd_loop-whole zero acc bs h = absurd (omega arith)
  zstd_loop-whole (suc f) acc [] h =
      rw (read-whole_nil c 4096, zstd_loop) (ap ok (sym (append-nil acc)))
  zstd_loop-whole (suc f) acc (b ∷ bs) h =
      let (j, fits, left, step) = read-whole_cons c law 4096 b bs (omega arith) in
      rw (step, zstd_loop)
        (zstd_loop-whole f (acc ++ (b ∷ take j bs)) (drop j bs) (omega (arith, length-drop j bs))
          ∙ ap ok (rejoin acc b j bs))

  pub skip_loop-whole :
      (f n : ℕ) (bs : Bytes) → n ≤ f → skip_loop c f n (whole bs) ≡ ok (whole (drop n bs))
  unfolding skip_loop
  skip_loop-whole zero zero bs h = refl
  skip_loop-whole zero (suc n) bs h = absurd (omega arith)
  skip_loop-whole (suc f) zero bs h = refl
  skip_loop-whole (suc f) (suc n) [] h = rw (read-whole_nil c (min (suc n) 65536), skip_loop)
  skip_loop-whole (suc f) (suc n) (b ∷ bs) h =
      let (j, fits, left, step) = read-whole_cons c law (min (suc n) 65536) b bs (omega arith) in
      rw (step, skip_loop)
        (skip_loop-whole f (suc n - suc (length (take j bs))) (drop j bs)
            (omega (arith, length-take j bs))
          ∙ ap (λ (r : Bytes). ok (whole r))
              (drop-drop j (suc n - suc (length (take j bs))) bs
                ∙ ap (λ (k : ℕ). drop k bs) (omega (arith, length-take j bs))))

  pub fill_loop-whole :
      (f n : ℕ) (acc bs : Bytes) → n ≤ f → fill_loop c f n acc (whole bs) ≡ ok (acc ++ take n bs)
  unfolding fill_loop
  fill_loop-whole zero zero acc bs h = ap ok (sym (append-nil acc))
  fill_loop-whole zero (suc n) acc bs h = absurd (omega arith)
  fill_loop-whole (suc f) zero acc bs h = ap ok (sym (append-nil acc))
  fill_loop-whole (suc f) (suc n) acc [] h =
      rw (read-whole_nil c (suc n), fill_loop) (ap ok (sym (append-nil acc)))
  fill_loop-whole (suc f) (suc n) acc (b ∷ bs) h =
      let (j, fits, left, step) = read-whole_cons c law (suc n) b bs (omega arith) in
      rw (step, fill_loop)
        (fill_loop-whole f (suc n - suc (length (take j bs))) (acc ++ (b ∷ take j bs)) (drop j bs)
            (omega (arith, length-take j bs))
          ∙ ap ok (
              rejoin_take acc b j (suc n - suc (length (take j bs))) n bs
                (omega (arith, length-take j bs))))
