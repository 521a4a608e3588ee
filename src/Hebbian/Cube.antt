-- ===== src/Hebbian/Cube.antt =====
-- The pull to the centroid and the repulsion leave every coordinate between -1 and 1
-- (pkg/synapse/hebbian.go, pullToCentroid and repelUnconnected).
use qubicdb.Prelude.{
  ℕ, zero, suc, ◌≡◌, false, List, [], ◌∷◌, Text, text_discrete, mentions, ◌==◌, length, Bool-cases,
  Option-cases, inl, inr, All,
}
use qubicdb.Prelude.Assoc.{lookup, AllEntries, AllEntries-lookup, AllEntries-insert}
use qubicdb.Core.Float.{Float, FloatLaws}
use qubicdb.Core.Neuron.{Neuron, zeros}
use qubicdb.Core.Matrix.{Matrix}
use qubicdb.Hebbian.Cluster.{
  clamp, sum_positions, pull_position, repel_position, move, pull_to_centroid, candidates,
  repel_each, repel_unconnected,
}

module _ {F : Type 0} (f : Float F) where
  abbrev minus_one : F
  minus_one = f.sub (f.ratio 0 1) (f.ratio 1 1)

  abbrev pub InCube : List F → Type 0
  InCube =
      All
        (λ p. (f.lt p (f.sub (f.ratio 0 1) (f.ratio 1 1)) ≡ false) × (f.lt (f.ratio 1 1) p ≡ false))

  -- every neuron has its coordinates between -1 and 1
  abbrev pub Within : Matrix F → Type 0
  Within m = AllEntries (λ k n. InCube n.position) m.neurons

  module _ (laws : FloatLaws f) where
    clamp_bounds :
        (p : F)
        → (f.lt (clamp f p) (f.sub (f.ratio 0 1) (f.ratio 1 1)) ≡ false)
          × (f.lt (f.ratio 1 1) (clamp f p) ≡ false)
    unfolding clamp
    clamp_bounds p = elim (Bool-cases (f.lt (f.ratio 1 1) p)) [
      | inl high ↦ rw high (laws.minus_one_le_one, laws.lt_irrefl (f.ratio 1 1))
      | inr h ↦ elim (Bool-cases (f.lt p (f.sub (f.ratio 0 1) (f.ratio 1 1)))) [
        | inl low ↦ rw (h, low) (laws.lt_irrefl _, laws.minus_one_le_one)
        | inr fine ↦ rw (h, fine) (fine, h)
      ]
    ]

    pull_position-InCube :
        (strength : F) (count : ℕ) (ps cs : List F)
        → InCube ps
        → InCube (pull_position f strength count ps cs)
    unfolding pull_position
    pull_position-InCube strength count [] cs a = tt
    pull_position-InCube strength count (p ∷ ps) [] a = a
    pull_position-InCube strength count (p ∷ ps) (c ∷ cs) a =
        (clamp_bounds _, pull_position-InCube strength count ps cs a.1)

    repel_position-InCube :
        (strength : F) (ps ns : List F) → InCube ps → InCube (repel_position f strength ps ns)
    unfolding repel_position
    repel_position-InCube strength [] ns a = tt
    repel_position-InCube strength (p ∷ ps) [] a = a
    repel_position-InCube strength (p ∷ ps) (n ∷ ns) a =
        (clamp_bounds _, repel_position-InCube strength ps ns a.1)

    move-Within :
        (id : Text) (n : Neuron F) (pos : List F) (m : Matrix F)
        → Within m
        → InCube pos
        → Within (move f id n pos m)
    unfolding move
    move-Within id n pos m w a =
        AllEntries-insert text_discrete (λ k n. InCube n.position) m.neurons id
          (record n { position = pos }) w a

    pull_to_centroid-Within :
        (id : Text) (ns : List Text) (strength : F) (m : Matrix F)
        → Within m
        → Within (pull_to_centroid f id ns strength m)
    unfolding pull_to_centroid
    pull_to_centroid-Within id ns strength m w =
        elim (Option-cases (lookup text_discrete id m.neurons)) [
          | inl h ↦ rw (h, pull_to_centroid) w
          | inr (n, h) ↦
              let total = sum_positions f m.neurons ns (zeros f (length n.position), 0) in
              elim (Bool-cases (total.1 == 0)) [
                | inl nobody ↦ rw (h, pull_to_centroid, nobody) w
                | inr somebody ↦
                    rw (h, pull_to_centroid, somebody)
                      (move-Within id n (pull_position f strength total.1 n.position total.0) m w (
                        pull_position-InCube strength total.1 n.position total.0 (
                          AllEntries-lookup text_discrete (λ k n. InCube n.position) m.neurons id n
                            w h)))
              ]
        ]

    candidates-Within :
        (k : ℕ) (connected : List Text) (l : List (Text × Neuron F))
        → AllEntries (λ k n. InCube n.position) l
        → AllEntries (λ k n. InCube n.position) (candidates f k connected l)
    unfolding candidates
    candidates-Within zero connected l a = tt
    candidates-Within (suc k) connected [] a = tt
    candidates-Within (suc k) connected ((j, n) ∷ l) a = elim (Bool-cases (mentions j connected)) [
      | inl h ↦ rw (h, AllEntries) (candidates-Within (suc k) connected l a.1)
      | inr h ↦ rw (h, AllEntries) (a.0, candidates-Within k connected l a.1)
    ]

    repel_each-Within :
        (strength : F) (pos : List F) (l : List (Text × Neuron F)) (m : Matrix F)
        → Within m
        → AllEntries (λ k n. InCube n.position) l
        → Within (repel_each f strength pos l m)
    unfolding repel_each
    repel_each-Within strength pos [] m w a = w
    repel_each-Within strength pos ((j, n) ∷ l) m w a =
        repel_each-Within strength pos l _
          (move-Within j n (repel_position f strength n.position pos) m w
            (repel_position-InCube strength n.position pos a.0))
          a.1

    repel_unconnected-Within :
        (id : Text) (ns : List Text) (strength : F) (m : Matrix F)
        → Within m
        → Within (repel_unconnected f id ns strength m)
    unfolding repel_unconnected
    repel_unconnected-Within id ns strength m w =
        elim (Option-cases (lookup text_discrete id m.neurons)) [
          | inl h ↦ rw (h, repel_unconnected) w
          | inr (n, h) ↦
              rw (h, repel_unconnected)
                (repel_each-Within strength n.position (candidates f 5 (id ∷ ns) m.neurons) m w
                  (candidates-Within 5 (id ∷ ns) m.neurons w))
        ]

    -- If every neuron of a matrix has its coordinates between -1 and 1, this holds after a pull to
    -- the centroid of any neighbours and a repulsion by any neuron, whatever the strengths, if the
    -- floating-point operations keep the laws of the order.
    pub repel_unconnected-pull_to_centroid-Within :
        (id id' : Text) (ns ns' : List Text) (strength strength' : F) (m : Matrix F)
        → Within m
        → Within (repel_unconnected f id' ns' strength' (pull_to_centroid f id ns strength m))
    repel_unconnected-pull_to_centroid-Within id id' ns ns' strength strength' m w =
        repel_unconnected-Within id' ns' strength' (pull_to_centroid f id ns strength m)
          (pull_to_centroid-Within id ns strength m w)
