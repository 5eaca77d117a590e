-- ===== src/Interp/Return/Values.antt =====
-- Where a returned value goes.
use turkey_vm.Prelude.{ℕ, ◌+◌, ◌-◌, ◌<◌, ◌≡◌, refl, true, List, ◌∷◌, length, ok, ◌>>=◌, Returns}
use turkey_vm.Frame.Defs.{Frame, Operand, type_int, type_double, type_reference, pop, push}
use turkey_vm.Frame.View.{operands, IsFrame, Leaves}
use turkey_vm.Frame.Steps.{is_word, Leaves-self}
use turkey_vm.Frame.Operands.{with_pop, with_pop_wide, with_push, push_wide-Effect}
use turkey_vm.Interp.Rules.{long_on, long_parts}
use turkey_vm.Interp.Return.{exe_opc_ireturn, exe_opc_dreturn, exe_opc_areturn}

-- The caller has the operands `vs` and the returning frame `ws`; both are otherwise as before.
abbrev pub Moved : Frame → Frame → List ℕ → List ℕ → Frame × Frame → Type 0
Moved r f vs ws (r', f') = Leaves r r.cell r.pc vs r' × Leaves f f.cell f.pc ws f'

module _ (r f : Frame) (r_valid : IsFrame r) (f_valid : IsFrame f) (v : ℕ) (t s : List ℕ)
    (on_r : operands r ≡ t) where
  word-Moved :
      (type : Operand)
      → is_word type ≡ true
      → operands f ≡ v ∷ s
      → length t < r.top - r.bottom
      → Returns
          (pop f type >>= λ (value, f₁). push r value type >>= λ r₁. ok (r₁, f₁))
          (Moved r f (v ∷ t) s)
  word-Moved type w on_f room = with_pop type _ w (Leaves-self f f_valid on_f) λ f₁ small l.
      with_push v type _ w (Leaves-self r r_valid on_r) small room λ r₁ k. ((r₁, f₁), refl, (k, l))

  -- Of two frames in order, the returning one with a word on top and the caller with room for it,
  -- `ireturn` and `areturn` move the word to the stack of the caller; all else stays.
  pub word_returns-move :
      operands f ≡ v ∷ s
      → length t < r.top - r.bottom
      → Returns (exe_opc_ireturn r f) (Moved r f (v ∷ t) s)
        × Returns (exe_opc_areturn r f) (Moved r f (v ∷ t) s)
  unfolding exe_opc_ireturn exe_opc_areturn
  word_returns-move on_f room =
      (word-Moved type_int refl on_f room, word-Moved type_reference refl on_f room)

  -- Of two frames in order, the returning one with a double on top and the caller with room for its
  -- two words, `dreturn` moves the double to the stack of the caller; all else stays.
  pub double_return-moves :
      operands f ≡ long_on v s
      → length t + 1 < r.top - r.bottom
      → Returns (exe_opc_dreturn r f) (Moved r f (long_on v t) s)
  unfolding exe_opc_dreturn
  double_return-moves on_f room =
      with_pop_wide type_double _ refl (Leaves-self f f_valid on_f) λ f₁ small l.
        let (r₁, runs, k) =
          push_wide-Effect v type_double refl (λ e. cc) (Leaves-self r r_valid on_r)
            (rw (long_parts v) at small) room in
        rw (long_parts v, runs) ((r₁, f₁), refl, (k, l))
