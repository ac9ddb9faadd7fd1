-- ===== src/Rtos/Task/Context.antt =====
-- The first context of a task, as stack_init of daniertos/v3-smp/src/kernel/task.c leaves it.
use djiang_oss_public.Prelude.{
  ℕ, zero, suc, ◌+◌, ◌-◌, ◌*◌, ◌%◌, ◌^◌, ◌<◌, ◌≡◌, ◌≢◌, refl, sym, ◌∙◌, inl, inr, arith, ◌==◌,
  false, if◌then◌else◌, eq_cases, update, update-ne,
}
use djiang_oss_public.Rtos.Types.{Kernel}
use djiang_oss_public.Rtos.Task.{Image}
use djiang_oss_public.Rtos.Task.Create.{clear_words, stack_init, mstatus_machine}

-- What the word `i` of a context of a machine-mode task is: the return address, the stack pointer,
-- the argument, the entry point and the status, and zeros.
abbrev pub first_word : Image → ℕ → ℕ → ℕ → ℕ → ℕ
first_word image func arg top i =
    if i == 1
    then image.exit_handler
    else if i == 2
    then top
    else if i == 10
    then arg
    else if i == 32
    then func
    else if i == 33
    then mstatus_machine
    else 0

-- In `mem'` the 34 words from `sp` on are a first context, and all else is as in `mem`.
pub record IsContext (image : Image) (func arg top sp : ℕ) (mem mem' : ℕ → ℕ) : Type 0 where
  pub words : (i : ℕ) → i < 34 → mem' (sp + 8 * i) ≡ first_word image func arg top i
  pub elsewhere : (a : ℕ) → ((i : ℕ) → i < 34 → a ≢ sp + 8 * i) → mem' a ≡ mem a

clear_words-zero : (n sp i : ℕ) (mem : ℕ → ℕ) → i < n → clear_words n sp mem (sp + 8 * i) ≡ 0
clear_words-zero zero sp i mem lt = absurd (omega arith)
clear_words-zero (suc n) sp i mem lt = elim (eq_cases i n) [
  | inl e ↦ ground arith
  | inr ne ↦ ground (arith, clear_words-zero n sp i mem (omega arith))
]

clear_words-same :
    (n sp a : ℕ) (mem : ℕ → ℕ) → ((i : ℕ) → i < n → a ≢ sp + 8 * i) → clear_words n sp mem a ≡ mem a
clear_words-same zero sp a mem off = refl
clear_words-same (suc n) sp a mem off =
    update-ne (clear_words n sp mem) (sp + 8 * n) a 0 (λ e. off n (omega arith) (sym e))
    ∙ clear_words-same n sp a mem (λ i lt. off i (omega arith))

module _ (image : Image) (func arg top sp : ℕ) (m0 : ℕ → ℕ) where
  -- The five words written over the zeros.
  filled : ℕ → ℕ
  filled =
      update
        (update
          (update (update (update m0 (sp + 8 * 1) image.exit_handler) (sp + 8 * 2) top)
            (sp + 8 * 10) arg)
          (sp + 8 * 32) func)
        (sp + 8 * 33) mstatus_machine

  filled-words :
      (i : ℕ) → m0 (sp + 8 * i) ≡ 0 → filled (sp + 8 * i) ≡ first_word image func arg top i
  unfolding filled
  filled-words i zeroed = ground arith

  filled-same : (a : ℕ) → ((i : ℕ) → i < 34 → a ≢ sp + 8 * i) → filled a ≡ m0 a
  unfolding filled
  filled-same a off = ground (
    arith,
    off 1 (omega arith),
    off 2 (omega arith),
    off 10 (omega arith),
    off 32 (omega arith),
    off 33 (omega arith),
  )

-- The context of a machine-mode task.
pub stack_init_lem :
    (image : Image) (top func arg : ℕ) (k : Kernel)
    → IsContext image func arg top
        (stack_init image top func arg false k).0
        k.mem
        (stack_init image top func arg false k).1.mem
unfolding stack_init filled
stack_init_lem image top func arg k =
    let sp = (2 ^ 64 + top - 8 * 34) % 2 ^ 64 in
    let zeros = clear_words 34 sp k.mem in
    record {
      words =
          λ i lt. filled-words image func arg top sp zeros i (clear_words-zero 34 sp i k.mem lt);
      elsewhere = λ a off.
          filled-same image func arg top sp zeros a off ∙ clear_words-same 34 sp a k.mem off;
    }
