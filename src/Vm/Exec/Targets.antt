-- ===== src/Vm/Exec/Targets.antt =====
-- `resolveJitTarget` of VM.cpp goes to the instruction that starts at the byte offset.
use loxis_programming_langua.Prelude.{
  ℕ, zero, suc, ◌+◌, ◌<◌, ◌≡◌, ◌↔◌, ◌⊎◌, inl, inr, refl, ap, ◌∙◌, Bool-cases, List, [], ◌∷◌, Option,
  none, some, ◌==◌, ==_iff, update, get_elem?, subst, arith,
}
use native.Mathlib.Nat.{zero-add}
use loxis_programming_langua.Bytecode.Emit.{Bytes}
use loxis_programming_langua.Bytecode.Decode.{DecodedInstr, Decoded, decoded, decode_bytecode}
use loxis_programming_langua.Bytecode.Decode.Offsets.{Ascending, decode_bytecode_offsets}
use loxis_programming_langua.Vm.Data.{Program}
use loxis_programming_langua.Vm.Exec.{jit_ip_map, try_build_jit, resolve_jit_target}

some_injective : {A : Type 0} {a b : A} → some a ≡ some b → a ≡ b
some_injective {a = a} e = ap (λ o. elim o [ none ↦ a | some x ↦ x ]) e

-- Later instructions stand at higher offsets.
jit_ip_map_below :
    (is : List DecodedInstr) (index low offset : ℕ) (map : ℕ → Option ℕ)
    → Ascending low is
    → offset < low
    → jit_ip_map is index map offset ≡ map offset
unfolding jit_ip_map
jit_ip_map_below [] index low offset map a lt = refl
jit_ip_map_below (i ∷ is) index low offset map a lt =
    let other : update map i.byte_offset (some index) offset ≡ map offset = ground arith in
    jit_ip_map_below is (index + 1) (suc i.byte_offset) offset _ a.1 (omega (arith, a.0)) ∙ other

offset_of_some : (i j : DecodedInstr) → some i ≡ some j → i.byte_offset ≡ j.byte_offset
offset_of_some i j e = ap (λ (k : DecodedInstr). k.byte_offset) (some_injective e)

jit_ip_map_hit :
    (is : List DecodedInstr) (index low k : ℕ) (map : ℕ → Option ℕ) (i : DecodedInstr)
    → Ascending low is
    → get_elem? is k ≡ some i
    → jit_ip_map is index map i.byte_offset ≡ some (index + k)
unfolding jit_ip_map
jit_ip_map_hit [] index low k map i a e = ground arith
jit_ip_map_hit (j ∷ is) index low zero map i a e =
    let same : j.byte_offset ≡ i.byte_offset = offset_of_some j i e in
    let here : update map j.byte_offset (some index) i.byte_offset ≡ some (index + 0) =
      ground arith in
    jit_ip_map_below is (index + 1) (suc j.byte_offset) i.byte_offset _ a.1 (omega (arith, same))
    ∙ here
jit_ip_map_hit (j ∷ is) index low (suc k) map i a e =
    jit_ip_map_hit is (index + 1) (suc j.byte_offset) k _ i a.1 e ∙ ap some (omega arith)

jit_ip_map_sound :
    (is : List DecodedInstr) (index offset t : ℕ) (map : ℕ → Option ℕ)
    → jit_ip_map is index map offset ≡ some t
    → (map offset ≡ some t)
      ⊎ (k : ℕ) × (i : DecodedInstr) × (t ≡ index + k)
        × (get_elem? is k ≡ some i)
        × (i.byte_offset ≡ offset)
unfolding jit_ip_map
jit_ip_map_sound [] index offset t map e = inl e
jit_ip_map_sound (j ∷ is) index offset t map e =
    elim (jit_ip_map_sound is (index + 1) offset t _ e) [
      | inr (k, i, at, found, same) ↦ inr (suc k, i, omega (arith, at), found, same)
      | inl h ↦ elim (Bool-cases (j.byte_offset == offset)) [
        | inl same ↦ inr (0, j, ground arith, refl, (==_iff j.byte_offset offset).0 same)
        | inr other ↦ inl (rw other at h)
      ]
    ]

built-Ascending :
    (code : Bytes) (is : List DecodedInstr) → try_build_jit code ≡ some is → Ascending 0 is
unfolding try_build_jit
built-Ascending code is e = ascending_of (decode_bytecode code) refl e
  where
    ascending_of :
        (d : Decoded)
        → decode_bytecode code ≡ d
        → elim d [ decoded js ↦ some js | _ ↦ none ] ≡ some is
        → Ascending 0 is
    ascending_of (decoded js) at h =
        subst (Ascending 0) (some_injective h) (decode_bytecode_offsets code js at).1
    ascending_of _ at h = ground arith

found :
    (p : Program) (offset t : ℕ)
    → (none ≡ some t)
      ⊎ (k : ℕ) × (i : DecodedInstr) × (t ≡ 0 + k)
        × (get_elem? p.jit_code k ≡ some i)
        × (i.byte_offset ≡ offset)
    → (i : DecodedInstr) × (get_elem? p.jit_code t ≡ some i) × (i.byte_offset ≡ offset)
found p offset t (inl e) = ground arith
found p offset t (inr (k, i, at, here, same)) = (i, rw (at, zero-add) here, same)

-- Where the code that `tryBuildJit` decoded is the machine's, `resolveJitTarget` gives the index of the
-- instruction that starts at the byte offset, and nothing if no instruction starts there.
pub resolve_jit_target_lem :
    (code : Bytes) (p : Program) (offset t : ℕ)
    → try_build_jit code ≡ some p.jit_code
    → (resolve_jit_target p offset ≡ some t)
      ↔ (i : DecodedInstr) × (get_elem? p.jit_code t ≡ some i) × (i.byte_offset ≡ offset)
unfolding resolve_jit_target
resolve_jit_target_lem code p offset t built =
    let ascending : Ascending 0 p.jit_code = built-Ascending code p.jit_code built in
    (
      (λ e. found p offset t (jit_ip_map_sound p.jit_code 0 offset t _ e)),
      (λ (i, at, same).
          rw (← same) (jit_ip_map_hit p.jit_code 0 0 t _ i ascending at ∙ ap some (omega arith))),
    )
