-- ===== src/Adsb/Tests.antt =====
-- The decoding of concrete samples.
use rtl_sdr.Prelude.{ℕ, ◌≡◌, refl, arith, List, [], ◌∷◌, ◌++◌, length, replicate, some, true}
use rtl_sdr.Adsb.{
  abs8, square, magnitute, single_manchester, preamble, preamble_loop, find, mark, mark_preamble,
  round, manchester_loop, manchester, collect, messages_loop, messages,
}
use rtl_sdr.Adsb.Magnitude.{AllBelow, energies, magnitute-energies}
use rtl_sdr.Adsb.Termination.{manchester_total}
use rtl_sdr.Adsb.Frames.{AllHeaded, messages-AllHeaded}

abbrev bytes : List ℕ
bytes = 0 ∷ 255 ∷ 127 ∷ 130 ∷ []

magnitute_example : magnitute bytes ≡ 32513 ∷ 9 ∷ []
unfolding magnitute square abs8
magnitute_example = refl

magnitute-energies_example : (magnitute bytes ≡ energies bytes) × AllBelow 32769 (magnitute bytes)
magnitute-energies_example = magnitute-energies bytes (omega arith)

-- A preamble, then a bit of each kind and the end of the samples.
abbrev samples : List ℕ
samples = 9 ∷ 0 ∷ 9 ∷ 0 ∷ 0 ∷ 0 ∷ 0 ∷ 9 ∷ 0 ∷ 9 ∷ 0 ∷ 0 ∷ 0 ∷ 0 ∷ 0 ∷ 0 ∷ 9 ∷ 1 ∷ 2 ∷ 8 ∷ 1 ∷ []

preamble_example : preamble samples 0 ≡ true
unfolding preamble preamble_loop
preamble_example = refl

manchester_example :
    manchester 21 10 5 samples ≡ some (replicate 16 253 ++ (1 ∷ 0 ∷ 254 ∷ 254 ∷ 1 ∷ []))
unfolding manchester manchester_loop round find preamble preamble_loop mark_preamble mark
    single_manchester
manchester_example = refl

manchester_total_example :
    (out : List ℕ) × (manchester 21 10 5 samples ≡ some out) × (length out ≡ 21)
manchester_total_example = manchester_total 21 10 5 samples (omega arith) (omega arith)

messages_example : messages (2 ∷ 1 ∷ replicate 111 0 ++ (2 ∷ [])) ≡ (128 ∷ replicate 13 0, 112) ∷ []
unfolding messages messages_loop collect
messages_example = refl

messages-AllHeaded_example : AllHeaded (messages (2 ∷ 1 ∷ replicate 111 0 ++ (2 ∷ [])))
messages-AllHeaded_example = messages-AllHeaded (2 ∷ 1 ∷ replicate 111 0 ++ (2 ∷ []))
