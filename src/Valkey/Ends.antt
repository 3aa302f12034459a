-- ===== src/Valkey/Ends.antt =====
-- What RPOPLPUSH moves: the right end of one list to the left end of another.
use dalmatian.Prelude.{◌+◌, String, ◌≡◌, List, [], ◌∷◌, arith, count}
use dalmatian.Valkey.{last?, drop_last, push}

-- No entry is lost or made up.
pub count-push-drop_last :
    (i : String) (xs ys : List String)
    → count i (push (last? xs) ys) + count i (drop_last xs) ≡ count i xs + count i ys
unfolding count
count-push-drop_last i [] ys = omega arith
count-push-drop_last i (x ∷ []) ys = omega arith
count-push-drop_last i (x ∷ y ∷ xs) ys = omega (arith, count-push-drop_last i (y ∷ xs) ys)
