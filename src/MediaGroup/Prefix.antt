-- ===== src/MediaGroup/Prefix.antt =====
-- The prefix of a title that the groups are sought by.
use medialibrary.Common.{
  ℕ, suc, ◌+◌, ◌≡◌, refl, sym, ap, ◌∙◌, List, [], ◌∷◌, ◌++◌, Bytes, length, All, take, drop, arith,
  take-append-drop,
}
use medialibrary.Utf8.Counting.{
  Utf8Char, one, two, three, four, IsWellFormed, text, nb_bytes-text, drop-length,
}
use medialibrary.MediaGroup.Naming.{has_article, article_size, prefix}

text-append : (cs ds : List Utf8Char) → text (cs ++ ds) ≡ text cs ++ text ds
text-append [] ds = refl
text-append (one c ∷ cs) ds = ap (λ x. c ∷ x) (text-append cs ds)
text-append (two c d ∷ cs) ds = ap (λ x. c ∷ d ∷ x) (text-append cs ds)
text-append (three c d e ∷ cs) ds = ap (λ x. c ∷ d ∷ e ∷ x) (text-append cs ds)
text-append (four c d e f ∷ cs) ds = ap (λ x. c ∷ d ∷ e ∷ f ∷ x) (text-append cs ds)

text-split : (n : ℕ) (cs : List Utf8Char) → text cs ≡ text (take n cs) ++ text (drop n cs)
text-split n cs = ap text (sym (take-append-drop n cs)) ∙ text-append (take n cs) (drop n cs)

take-behind : (xs ys : Bytes) (n : ℕ) → take (length xs + n) (xs ++ ys) ≡ xs ++ take n ys
take-behind [] ys n = grind arith
take-behind (x ∷ xs) ys n =
    let more : suc (length xs) + n ≡ suc (length xs + n) = omega arith in
    rw more (ap (λ l. x ∷ l) (take-behind xs ys n))

-- For a title of well-formed characters behind its article, if it has one, the prefix is the first six
-- of these characters, and behind them as many bytes more as the article has.
pub prefix-text :
    (front : Bytes) (cs : List Utf8Char)
    → All IsWellFormed cs
    → article_size (front ++ text cs) ≡ length front
    → prefix (front ++ text cs) ≡ text (take 6 cs) ++ take (length front) (text (drop 6 cs))
unfolding prefix has_article
prefix-text front cs h e =
    rw (e, nb_bytes-text front cs 6 h, drop-length front (text cs), text-split 6 cs)
      (take-behind (text (take 6 cs)) (text (drop 6 cs)) (length front))
