-- ===== src/Tests/Auth.antt =====
-- Examples of the theorems on tokens, of subscriptions and of sessions.
use zeroone.Prelude.{
  ℕ, zero, suc, ◌≡◌, ◌≢◌, inl, refl, str_eq, str_eq_iff, true, arith, String, false, some,
  append_text, length, ◌<◌,
}
use zeroone.Prelude.Int.{pos}
use zeroone.Stack.{User}
use zeroone.Stack.Text.{has_char}
use zeroone.Stack.Text.Decimal.{show_ℤ}
use zeroone.Stack.Tokens.{
  with_token, user_by_sub_token, ensure_sub_tokens, IsFresh, user_by_sub_token-ensure,
}
use zeroone.Auth.Sessions.{issue_session, verify_session, payload, verify-issue}
use zeroone.Tests.Samples.{sample, user_of}

sign : String → String → String
sign secret text = append_text secret text

abbrev same : String → String
same s = s

issued :
    issue_session sign same "key" "root" 1000
    ≡ some (
      append_text (payload "root" 44200) (append_text "." (sign "key" (payload "root" 44200))),
      44200,
    )
unfolding issue_session has_char
issued = refl

verify-issue_example :
    verify_session sign some "key"
      (append_text (payload "root" 44200) (append_text "." (sign "key" (payload "root" 44200))))
      44201
    ≡ ""
unfolding has_char show_ℤ
verify-issue_example =
    verify-issue sign same some "key" "root" 1000 44201 refl refl (omega arith) issued

-- Three tokens as `randomToken` might answer them, the last one again and again.
drawn : ℕ → String
drawn zero = "t"
drawn (suc zero) = "tt"
drawn (suc (suc n)) = "ttt"

drawn-filled : (n : ℕ) → drawn n ≢ ""
unfolding drawn
drawn-filled zero h = cc
drawn-filled (suc zero) h = cc
drawn-filled (suc (suc n)) h = cc

drawn-new : (n : ℕ) → str_eq "" (drawn n) ≡ false
drawn-new n = ground (arith, str_eq_iff "" (drawn n), drawn-filled n)

drawn-apart : (m n : ℕ) → m < 3 → n < 3 → drawn m ≡ drawn n → m ≡ n
unfolding drawn
drawn-apart zero zero h k e = refl
drawn-apart zero (suc zero) h k e = cc
drawn-apart zero (suc (suc n)) h k e = cc
drawn-apart (suc zero) zero h k e = cc
drawn-apart (suc zero) (suc zero) h k e = refl
drawn-apart (suc zero) (suc (suc n)) h k e = cc
drawn-apart (suc (suc m)) zero h k e = cc
drawn-apart (suc (suc m)) (suc zero) h k e = cc
drawn-apart (suc (suc m)) (suc (suc n)) h k e = omega (arith, h, k)

fresh : IsFresh drawn (length sample.xray.users) sample.xray.users
fresh = record {
  filled = λ n below. drawn-filled n;
  new = λ n below. rw (drawn-new n);
  apart = drawn-apart;
}

abbrev ann : User
ann = with_token (user_of "ann" true (pos 100) (pos 21000)) "t"

user_by_sub_token-ensure_example :
    (ann.sub_token ≢ "")
    × (user_by_sub_token (ensure_sub_tokens drawn sample).0 ann.sub_token ≡ some ann)
unfolding ensure_sub_tokens drawn
user_by_sub_token-ensure_example =
    user_by_sub_token-ensure drawn sample fresh (inl refl, (inl refl, (inl refl, tt))) 0 ann refl
