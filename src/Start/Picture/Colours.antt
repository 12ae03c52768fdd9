-- ===== src/Start/Picture/Colours.antt =====
-- The colours of the pixels.
use tiny_os64v.Base.{
  ℕ, zero, suc, ◌+◌, ◌*◌, ◌<◌, ◌≤◌, some, Bool-cases, inl, inr, get_elem?, u8, ◌≡◌, ap, arith, ◌∙◌,
}
use tiny_os64v.Start.Picture.{
  Floats, MyComplex, grey, mysqrt, table_from, mktable, rescale, plus, times, mag2, iterate,
  iterations, point, complex,
}

module _ (fl : Floats) where
  -- The entry of the table for a number of iterations.
  abbrev pub colour : ℕ → ℕ
  colour v = grey (u8 (fl.to_u8 (mysqrt fl (fl.of_int (v * 255)))))

  table_from_lem :
      (left i k : ℕ) → k < left → get_elem? (table_from fl left i) k ≡ some (colour (i + k))
  unfolding table_from
  table_from_lem zero i k h = absurd (omega (arith, h))
  table_from_lem (suc left) i zero h = ap (λ n. some (colour n)) {x = i} {y = i + 0} (omega arith)
  table_from_lem (suc left) i (suc k) h =
      table_from_lem left (i + 1) k (omega (arith, h))
      ∙ ap (λ n. some (colour n)) {x = i + 1 + k} {y = i + suc k} (omega arith)

  pub rescale_lem : (v : ℕ) → v < 256 → rescale fl v ≡ some (colour v)
  unfolding rescale mktable
  rescale_lem v h =
      let byte : u8 v ≡ v = omega (arith, h) in
      rw byte
        (table_from_lem 256 0 v h ∙ ap (λ n. some (colour n)) {x = 0 + v} {y = v} (omega arith))

  iterate_bound : (left : ℕ) (c z : MyComplex fl) (i : ℕ) → iterate fl left c z i ≤ i + left
  unfolding iterate
  iterate_bound zero c z i = omega arith
  iterate_bound (suc left) c z i =
      let next = plus fl (times fl z z) c in
      let rest = iterate_bound left c next (i + 1) in
      elim (Bool-cases (fl.at_least (mag2 fl next) fl.four)) [
        | inl out ↦ rw out (omega arith)
        | inr inside ↦ rw inside (omega (arith, rest))
      ]

  pub iterations_bound : (width height x y : ℕ) → iterations fl width height x y < 256
  unfolding iterations
  iterations_bound width height x y =
      omega (arith, iterate_bound 255 (point fl width height x y) (complex fl fl.zero fl.zero) 0)
