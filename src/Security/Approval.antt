-- ===== src/Security/Approval.antt =====
-- When a test asks for approval.
use aiautotest.Common.{Text, true, false, contains, any, contains_text, ◌≡◌, arith}
use aiautotest.Security.{SecurityTest, is_destructive, unsafe_methods, unsafe_words}

-- A test with another method than POST, PUT, DELETE and PATCH does not ask for approval, also if it
-- is marked as one that requires it.
marked-unasked :
    (to_uppercase to_lowercase : Text → Text) (t : SecurityTest)
    → contains (to_uppercase t.target.method) unsafe_methods ≡ false
    → is_destructive to_uppercase to_lowercase (record t { requires_confirmation = true }) ≡ false
unfolding is_destructive
marked-unasked to_uppercase to_lowercase t e = ground (arith, e)

-- A test that is not marked and whose path has none of the listed words does not ask for approval,
-- not even a DELETE.
unmarked-unasked :
    (to_uppercase to_lowercase : Text → Text) (t : SecurityTest)
    → any (λ word. contains_text word (to_lowercase t.target.path)) unsafe_words ≡ false
    → is_destructive to_uppercase to_lowercase (record t { requires_confirmation = false }) ≡ false
unfolding is_destructive
unmarked-unasked to_uppercase to_lowercase t e = rw e (ground arith)
