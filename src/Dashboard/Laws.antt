-- ===== src/Dashboard/Laws.antt =====
-- The url of a subscription in a format.
use sbm.Base.{
  ◌≤◌, ◌≡◌, ◌≢◌, refl, length, if◌then◌else◌, ap, false, [], ◌∷◌, ◌++◌, ◌==◌, All, arith,
}
use sbm.Base.Text.{Text, codes}
use sbm.Dashboard.{
  SubFormat, clash, auto, singbox, v2ray, id_of, main_part, hash_part, separator, has_query,
  with_target, format_sub_url,
}

-- A text without a `#`, and the fragment of a url: nothing, or a `#` and anything.
abbrev pub NoHash : Text → Type 0
NoHash = All (λ c. (c == b'#') ≡ false)

abbrev pub IsFragment : Text → Type 0
IsFragment [] = Unit
IsFragment (c ∷ s) = c ≡ b'#'

main-append : (m h : Text) → NoHash m → IsFragment h → main_part (m ++ h) ≡ m
unfolding main_part
main-append [] [] n f = refl
main-append [] (c ∷ h) n f = rw (main_part, f) refl
main-append (c ∷ m) h n f = rw (main_part, n.0) (ap (λ x. c ∷ x) (main-append m h n.1 f))

hash-append : (m h : Text) → NoHash m → IsFragment h → hash_part (m ++ h) ≡ h
unfolding hash_part
hash-append [] [] n f = refl
hash-append [] (c ∷ h) n f = rw (hash_part, f) refl
hash-append (c ∷ m) h n f = rw (hash_part, n.0) (hash-append m h n.1 f)

with_target-append :
    (m h : Text) (format : SubFormat)
    → NoHash m
    → IsFragment h
    → with_target (m ++ h) format ≡ m ++ (separator m ∷ (codes "target=" ++ (id_of format ++ h)))
unfolding with_target
with_target-append m h format n f = rw (main-append m h n f, hash-append m h n f) refl

-- The target is added to the query, before the fragment: the url up to the fragment and the fragment
-- itself are kept, and the target is parted by `&` exactly if there is a query already. The automatic
-- format leaves the url as it is.
pub format_sub_url-append :
    (m h : Text) (format : SubFormat)
    → NoHash m
    → IsFragment h
    → 1 ≤ length m
    → format ≢ auto
    → (format_sub_url (m ++ h) format
        ≡ m ++ ((if has_query m then b'&' else b'?') ∷ (codes "target=" ++ (id_of format ++ h))))
      × (format_sub_url (m ++ h) auto ≡ m ++ h)
unfolding format_sub_url separator
format_sub_url-append [] h format n f l e = absurd (omega arith)
format_sub_url-append (c ∷ m) h auto n f l e = absurd (e refl)
format_sub_url-append (c ∷ m) h clash n f l e = (with_target-append (c ∷ m) h clash n f, refl)
format_sub_url-append (c ∷ m) h singbox n f l e = (with_target-append (c ∷ m) h singbox n f, refl)
format_sub_url-append (c ∷ m) h v2ray n f l e = (with_target-append (c ∷ m) h v2ray n f, refl)
