-- ===== src/HookApi/Sample.antt =====
-- A kernel and a process that the tests run the hook API on.
use zpoline_rs.Prelude.{ℕ, ◌+◌, ◌^◌, ◌≡◌, refl, false, Option, none, some, arith, through_c_int}
use zpoline_rs.HookApi.Abi.{Prototype, CResult, int_result, word_result, no_result, prototype_of}
use zpoline_rs.HookApi.Process.{Kernel, default_hook, Process}
use zpoline_rs.HookApi.Entry.Transparent.{FollowsAbi}

-- A kernel that counts its calls: ints are 7, words are 2 ^ 40, exit does not return.
abbrev answer : CResult → ℕ → Option (ℕ × ℕ)
answer int_result k = some (7, k + 1)
answer word_result k = some (2 ^ 40, k + 1)
answer no_result k = none

abbrev answer_to : Option Prototype → ℕ → Option (ℕ × ℕ)
answer_to none k = some (0, k + 1)
answer_to (some t) k = answer t.result k

abbrev pub counting_kernel : Kernel ℕ
counting_kernel regs k = answer_to (prototype_of regs.rax) k

answer_7 :
    (r : CResult) (k v k' : ℕ) → r ≡ int_result → answer r k ≡ some (v, k') → through_c_int v ≡ v
answer_7 r k v k' f h = ground arith

pub counting_kernel-FollowsAbi : FollowsAbi counting_kernel
counting_kernel-FollowsAbi = record {
  reads_params = λ regs k t e. refl;
  int_results = λ regs k t v k' e f g. answer_7 t.result k v k' f (rw e at g);
  no_results = λ regs k t e f. rw (e, answer_to) (rw (f, answer));
}

abbrev pub started : {S : Type 0} → Process S ℕ
started = record {
  hook_function = default_hook;
  trait_object = none;
  trait_poisoned = false;
  trait_locked = false;
  in_hook = false;
  entry_count = 0;
  trait_count = 0;
  kernel_state = 0;
}
