-- ===== src/Policy/Paths/Segments.antt =====
-- What a pattern means for a whole path, and that `matchSegments` decides it.
use mathlib.Core.Bool.{false≢true}
use mathlib.Core.List.{append-nil}
use code_fleet.Prelude.{
  ◌≡◌, ◌≢◌, ◌⊎◌, ◌↔◌, refl, sym, ap, subst, ◌∙◌, inl, inr, Bool, true, false, List, [], ◌∷◌, ◌++◌,
  Text, ◌==◌, ==_iff, Bool-cases, arith, if◌then◌else◌,
}
use code_fleet.Policy.Paths.{stars, some_suffix, match_segment, match_segments}
use code_fleet.Policy.Paths.Globs.{Glob}
use code_fleet.Policy.Paths.Greedy.{match_segment_iff}

-- The pattern matches the path: `**` stands for any segments, at the end of the pattern for at least
-- one, and any other segment of the pattern for one segment of the path.
abbrev pub GlobPath : List Text → List Text → Type 0
GlobPath [] target = target ≡ []
GlobPath (segment ∷ segments) target =
    ((segment ≡ stars)
      × (skipped : List Text) × (rest : List Text) × (target ≡ skipped ++ rest)
      × (segments ≡ [] → target ≢ [])
      × GlobPath segments rest)
    ⊎ ((segment ≢ stars)
        × (first : Text) × (rest : List Text) × (target ≡ first ∷ rest)
        × Glob segment first
        × GlobPath segments rest)

some_suffix-found :
    (matches : List Text → Bool) (target : List Text)
    → some_suffix matches target ≡ true
    → (skipped : List Text) × (rest : List Text) × (target ≡ skipped ++ rest)
      × (matches rest ≡ true)
unfolding some_suffix
some_suffix-found matches [] h = ([], [], refl, h)
some_suffix-found matches (t ∷ ts) h = elim (Bool-cases (matches (t ∷ ts))) [
  | inl now ↦ ([], t ∷ ts, refl, now)
  | inr later ↦
      let (skipped, rest, same, here) = some_suffix-found matches ts (ground arith) in
      (t ∷ skipped, rest, ap (λ l. t ∷ l) same, here)
]

some_suffix-here :
    (matches : List Text → Bool) (target : List Text)
    → matches target ≡ true
    → some_suffix matches target ≡ true
unfolding some_suffix
some_suffix-here matches [] h = h
some_suffix-here matches (t ∷ ts) h = ground arith

some_suffix-later :
    (matches : List Text → Bool) (t : Text) (ts : List Text)
    → some_suffix matches ts ≡ true
    → some_suffix matches (t ∷ ts) ≡ true
unfolding some_suffix
some_suffix-later matches t ts h = ground arith

some_suffix-append :
    (matches : List Text → Bool) (skipped rest : List Text)
    → matches rest ≡ true
    → some_suffix matches (skipped ++ rest) ≡ true
some_suffix-append matches [] rest h = some_suffix-here matches rest h
some_suffix-append matches (t ∷ skipped) rest h =
    some_suffix-later matches t (skipped ++ rest) (some_suffix-append matches skipped rest h)

plain_segment :
    (segment : Text) (segments : List Text) (t : Text) (ts : List Text)
    → segment == stars ≡ false
    → match_segments (segment ∷ segments) (t ∷ ts)
      ≡ (if match_segment t segment then match_segments segments ts else false)
unfolding match_segments
plain_segment segment segments t ts h = ground arith

plain_at_end :
    (segment : Text) (segments : List Text)
    → segment == stars ≡ false
    → match_segments (segment ∷ segments) [] ≡ false
unfolding match_segments
plain_at_end segment segments h = ground arith

last_stars :
    (segment : Text) (t : Text) (ts : List Text)
    → segment == stars ≡ true
    → match_segments (segment ∷ []) (t ∷ ts) ≡ some_suffix (match_segments []) ts
unfolding match_segments
last_stars segment t ts h = ground arith

last_stars_at_end :
    (segment : Text) → segment == stars ≡ true → match_segments (segment ∷ []) [] ≡ false
unfolding match_segments
last_stars_at_end segment h = ground arith

inner_stars :
    (segment next : Text) (segments target : List Text)
    → segment == stars ≡ true
    → match_segments (segment ∷ next ∷ segments) target
      ≡ some_suffix (match_segments (next ∷ segments)) target
unfolding match_segments
inner_stars segment next segments target h = ground arith

suffix_of_end : (ts : List Text) → some_suffix (match_segments []) ts ≡ true
unfolding some_suffix match_segments
suffix_of_end [] = refl
suffix_of_end (t ∷ ts) = ground (arith, suffix_of_end ts)

-- The rest of the pattern has been decided for every target.
Decides : List Text → Type 0
Decides segments =
    (target : List Text) → (match_segments segments target ≡ true) ↔ GlobPath segments target

stars_ne : (segment : Text) → segment == stars ≡ false → segment ≢ stars
stars_ne segment h e = false≢true (sym h ∙ (==_iff segment stars).1 e)

abbrev Plain : Text → List Text → List Text → Type 0
Plain segment segments target =
    (segment ≢ stars)
    × (first : Text) × (rest : List Text) × (target ≡ first ∷ rest)
    × Glob segment first
    × GlobPath segments rest

literal_iff :
    (segment : Text) (segments target : List Text)
    → Decides segments
    → segment == stars ≡ false
    → (match_segments (segment ∷ segments) target ≡ true) ↔ Plain segment segments target
unfolding Decides
literal_iff segment segments [] onward plain = (
  λ h. absurd (false≢true (sym (plain_at_end segment segments plain) ∙ h)),
  λ (_, first, rest, same, _, _). cc,
)
literal_iff segment segments (t ∷ ts) onward plain =
    let step = plain_segment segment segments t ts plain in
    let one = match_segment_iff t segment in
    let tail = onward ts in
    (
      λ h. (
        stars_ne segment plain,
        t,
        ts,
        refl,
        one.0 (ground (arith, step, h)),
        tail.0 (ground (arith, step, h)),
      ),
      λ (_, first, rest, same, here, later).
          let same_first : t ≡ first = cc in
          let same_rest : ts ≡ rest = cc in
          let now = one.1 (subst (Glob segment) (sym same_first) here) in
          let after = tail.1 (subst (GlobPath segments) (sym same_rest) later) in
          ground (arith, step, now, after),
    )

abbrev Wild : Text → List Text → List Text → Type 0
Wild segment segments target =
    (segment ≡ stars)
    × (skipped : List Text) × (rest : List Text) × (target ≡ skipped ++ rest)
    × (segments ≡ [] → target ≢ [])
    × GlobPath segments rest

last_iff :
    (segment : Text) (target : List Text)
    → segment == stars ≡ true
    → (match_segments (segment ∷ []) target ≡ true) ↔ Wild segment [] target
last_iff segment [] wild = (
  λ h. absurd (false≢true (sym (last_stars_at_end segment wild) ∙ h)),
  λ (_, _, _, _, some_left, _). absurd (some_left refl refl),
)
last_iff segment (t ∷ ts) wild = (
  λ h. ((==_iff segment stars).0 wild, t ∷ ts, [], sym (append-nil (t ∷ ts)), λ e k. cc, refl),
  λ w. last_stars segment t ts wild ∙ suffix_of_end ts,
)

inner_iff :
    (segment next : Text) (segments target : List Text)
    → Decides (next ∷ segments)
    → segment == stars ≡ true
    → (match_segments (segment ∷ next ∷ segments) target ≡ true)
      ↔ Wild segment (next ∷ segments) target
unfolding Decides
inner_iff segment next segments target onward wild =
    let step = inner_stars segment next segments target wild in
    (
      λ h.
          let (skipped, rest, same, here) =
            some_suffix-found (match_segments (next ∷ segments)) target (sym step ∙ h) in
          ((==_iff segment stars).0 wild, skipped, rest, same, λ e k. cc, (onward rest).0 here),
      λ (_, skipped, rest, same, _, here).
          step
          ∙ ap (some_suffix (match_segments (next ∷ segments))) same
          ∙ some_suffix-append (match_segments (next ∷ segments)) skipped rest
              ((onward rest).1 here),
    )

-- A pattern's segment is `**` or it is not.
segment_iff :
    (segment : Text) (segments target : List Text)
    → Decides segments
    → (segment == stars ≡ true
        → (match_segments (segment ∷ segments) target ≡ true) ↔ Wild segment segments target)
    → (match_segments (segment ∷ segments) target ≡ true) ↔ GlobPath (segment ∷ segments) target
segment_iff segment segments target onward wild_iff = elim (Bool-cases (segment == stars)) [
  | inl wild ↦
      let (to, from) = wild_iff wild in
      (
        λ h. inl (to h),
        λ g. elim g [ inl w ↦ from w | inr p ↦ absurd (p.0 ((==_iff segment stars).0 wild)) ],
      )
  | inr plain ↦
      let (to, from) = literal_iff segment segments target onward plain in
      (
        λ h. inr (to h),
        λ g. elim g [ inl w ↦ absurd (stars_ne segment plain w.0) | inr p ↦ from p ],
      )
]

-- `matchSegments` holds exactly when the pattern matches the path.
pub match_segments_iff :
    (segments target : List Text)
    → (match_segments segments target ≡ true) ↔ GlobPath segments target
unfolding match_segments Decides
match_segments_iff [] [] = (λ h. refl, λ g. refl)
match_segments_iff [] (t ∷ ts) = (λ h. cc, λ g. cc)
match_segments_iff (s ∷ []) target =
    segment_iff s [] target (match_segments_iff []) (last_iff s target)
match_segments_iff (s ∷ next ∷ segments) target =
    segment_iff s (next ∷ segments) target (match_segments_iff (next ∷ segments))
      (inner_iff s next segments target (match_segments_iff (next ∷ segments)))
