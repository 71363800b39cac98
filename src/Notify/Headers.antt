-- ===== src/Notify/Headers.antt =====
-- What the headers of a notification can hold (notify/notify.go).
use neokit.Base.{
  List, any, map, ℕ, Bool, Bool-cases, length, ◌≡◌, false, ltb, take, true, arith, inl, ◌∷◌, ◌≤◌,
  [], inr, not, refl, suc, ◌&&◌, ◌++◌, zero, if◌then◌else◌,
}
use neokit.Fiberauth.Sanitize.{utf8, bytes}
use neokit.Notify.{
  Notification, level, level_success, level_warning, level_failure, is_control, blanked,
  header_safe, ntfy_priority, comma_blank, keep_tag, safe_tags, level_tag, ntfy_tags, ntfy_request,
}
use neokit.Text.{Text, text_eq, is_space, trim_space, join}
use neokit.Text.Trimming.{any-append, any-trim, any-take}

blanked_all : (s : Text) → any is_control (map blanked s) ≡ false
blanked_all [] = refl
blanked_all (c ∷ s) = ground (arith, blanked_all s)

utf8-control : (c : ℕ) → is_control c ≡ false → any is_control (utf8 c) ≡ false
unfolding utf8
utf8-control c h = ground (arith, h)

bytes-control : (s : Text) → any is_control s ≡ false → any is_control (bytes s) ≡ false
unfolding bytes
bytes-control [] h = refl
bytes-control (c ∷ s) h =
    ground (arith, any-append is_control (utf8 c) (bytes s), utf8-control c, bytes-control s, h)

length-take : (n : ℕ) (xs : List ℕ) → length (take n xs) ≤ n
length-take zero xs = ground arith
length-take (suc n) [] = ground arith
length-take (suc n) (x ∷ xs) = ground (arith, length-take n xs)

abbrev pub Safe : List ℕ → Type 0
Safe v = (any is_control v ≡ false) × (length v ≤ 256)

header_safe-Safe : (s : Text) → Safe (header_safe s)
unfolding header_safe
header_safe-Safe s =
    let out = bytes (trim_space (map blanked s)) in
    let clean =
      bytes-control (trim_space (map blanked s))
        (any-trim is_control is_space (map blanked s) (blanked_all s)) in
    elim (Bool-cases (ltb 256 (length out))) [
      | inl e ↦ rw e (any-take is_control 256 out clean, length-take 256 out)
      | inr e ↦ rw e (clean, ground (arith, e))
    ]

abbrev clean_tags : List (List ℕ) → Bool
clean_tags [] = true
clean_tags (t ∷ ts) = not (any is_control t) && clean_tags ts

keep_clean :
    (t : List ℕ) (ts : List (List ℕ))
    → any is_control t ≡ false
    → clean_tags ts ≡ true
    → clean_tags (keep_tag t ts) ≡ true
keep_clean [] ts h k = k
keep_clean (c ∷ t) ts h k = ground (arith, h, k)

safe_tags_clean : (tags : List Text) → clean_tags (safe_tags tags) ≡ true
unfolding safe_tags
safe_tags_clean [] = refl
safe_tags_clean (t ∷ tags) =
    keep_clean (header_safe (map comma_blank t)) (safe_tags tags)
      (header_safe-Safe (map comma_blank t)).0 (safe_tags_clean tags)

join_clean :
    (ts : List (List ℕ)) → clean_tags ts ≡ true → any is_control (join (b',' ∷ []) ts) ≡ false
unfolding join
join_clean [] h = refl
join_clean (f ∷ []) h = ground (arith, h)
join_clean (f ∷ g ∷ fs) h = ground (
  arith,
  h,
  any-append is_control (f ++ b',' ∷ []) (join (b',' ∷ []) (g ∷ fs)),
  any-append is_control f (b',' ∷ []),
  join_clean (g ∷ fs),
)

pick_clean :
    (b : Bool) (x y : Text)
    → any is_control x ≡ false
    → any is_control y ≡ false
    → any is_control (if b then x else y) ≡ false
pick_clean true x y h k = h
pick_clean false x y h k = k

level_tag_clean : (l : Text) → any is_control (level_tag l) ≡ false
level_tag_clean l = pick_clean (text_eq l level_success) _ _ refl (
    pick_clean (text_eq l level_warning) _ _ refl
      (pick_clean (text_eq l level_failure) _ _ refl refl))

priority_clean : (l : Text) → any is_control (ntfy_priority l) ≡ false
unfolding ntfy_priority
priority_clean l =
    pick_clean (text_eq l level_failure) _ _ refl
      (pick_clean (text_eq l level_warning) _ _ refl refl)

tags_clean : (n : Notification) → any is_control (ntfy_tags n) ≡ false
unfolding ntfy_tags level
tags_clean n = step n.tags refl
  where
    step : (ts : List Text) → n.tags ≡ ts → any is_control (ntfy_tags n) ≡ false
    step [] e = rw e (level_tag_clean (level n))
    step (t ∷ ts) e = rw e (join_clean (safe_tags (t ∷ ts)) (safe_tags_clean (t ∷ ts)))

-- No header that an ntfy message takes from a notification holds a control character, so that none can
-- start another header, whatever the title, the link and the tags hold; and the title and the link
-- have at most 256 bytes.
pub ntfy_request-header_safe :
    (token : Text) (n : Notification)
    → let (headers, body) = ntfy_request token n in
      (any is_control headers.ntfy_title ≡ false)
      × (length headers.ntfy_title ≤ 256)
      × (any is_control headers.click ≡ false)
      × (length headers.click ≤ 256)
      × (any is_control headers.ntfy_tag ≡ false)
      × (any is_control headers.priority ≡ false)
      × (body ≡ n.body)
unfolding ntfy_request
ntfy_request-header_safe token n =
    let (a, b) = header_safe-Safe n.title in
    let (c, d) = header_safe-Safe n.url in
    (a, b, c, d, tags_clean n, priority_clean (level n), refl)
