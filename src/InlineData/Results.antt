-- ===== src/InlineData/Results.antt =====
-- What the parsers of web searches and reports accept, and that what they yield is bounded.
use fleet_agent.Base.{
  ℕ, ◌≤◌, ◌<◌, ◌≡◌, refl, sym, ap, ◌∙◌, subst, Bool, true, false, Option, none, some, List, [], ◌∷◌,
  ◌&&◌, ◌||◌, ltb, not, take, length, units, All, nat_eq, arith, if◌then◌else◌,
}
use mathlib.Core.Option.{some-injective}
use fleet_agent.Json.{Json, Fields, field}
use fleet_agent.Threads.Units.{is_blank}
use fleet_agent.InlineData.{
  and_then, search_of, report_of, given_text, shown_search, text, map_from, versioned, records,
  Source, source, Search, parse_web_search, ReportSection, Report, report_section, parse_report,
  inline_web_search,
}
use fleet_agent.InlineData.Bounds.{
  IsText, field-IsText, text-short, indexed-IsText, length-taken, All-taken,
}
use fleet_agent.InlineData.Parsers.{
  IsVersioned, plain-IsText, nonempty-eq-some, versioned-IsVersioned, and_then-eq-some,
}

pub record IsBoundedSource (s : Source) : Type 0 where
  pub title : IsText 240 s.title
  pub domain : IsText 120 s.domain

source-IsBoundedSource : (k : ℕ) (fs : Fields) → IsBoundedSource (source k fs)
source-IsBoundedSource k fs = record {
  title = field-IsText 240 (field "title" fs) _ (plain-IsText 240 _ _ (omega arith));
  domain = field-IsText 120 (field "domain" fs) _ (plain-IsText 120 _ _ (omega arith));
}

-- A text that may be left out.
abbrev pub IfSome : (List ℕ → Type 0) → Option (List ℕ) → Type 0
IfSome P none = Unit
IfSome P (some t) = P t

pub record IsBoundedSection (s : ReportSection) : Type 0 where
  pub id : IsText 80 s.id
  pub heading : IsText 240 s.heading
  pub preview : IfSome (IsText 240) s.preview

given_text-IsText :
    (limit : ℕ) (t : List ℕ) → length t ≤ limit → IfSome (IsText limit) (given_text t)
unfolding is_blank
given_text-IsText limit [] h = tt
given_text-IsText limit (c ∷ cs) h = record { visible = refl; short = h }

report_section-IsBoundedSection :
    (k : ℕ) (fs : Fields) → k < 8 → IsBoundedSection (report_section k fs)
report_section-IsBoundedSection k fs h = record {
  id = field-IsText 80 (field "id" fs) _ (
      indexed-IsText 80 k (units "section-") (omega arith) (unfold is_blank in refl) (omega arith));
  heading = field-IsText 240 (field "heading" fs) _ (plain-IsText 240 _ _ (omega arith));
  preview =
      given_text-IsText 240 (text (field "preview" fs) 240) (text-short (field "preview" fs) 240);
}

-- A report that is shown was read from an event of version 1 and has one to eight sections, and
-- every identifier, heading and preview of them is a text that is not empty and within its limit.
parse_report_lem :
    (value : Json) (r : Report)
    → parse_report value ≡ some r
    → IsVersioned "sections" value
      × (0 < length r.sections)
      × (length r.sections ≤ 8)
      × All IsBoundedSection r.sections
unfolding parse_report
parse_report_lem value r h =
    let k = and_then-eq-some (versioned "sections" value) report_of r h in
    let s = records k.0.1 in
    let n = nonempty-eq-some (map_from report_section 0 (take 8 s)) _ r k.2 in
    let e = ap (λ (x : Report). x.sections) n.1 in
    (
      versioned-IsVersioned "sections" value k.0.0 k.0.1 k.1,
      subst (λ (xs : List ReportSection). 0 < length xs) e n.0,
      subst (λ (xs : List ReportSection). length xs ≤ 8) e (length-taken report_section 8 s),
      subst (All IsBoundedSection) e
          (All-taken IsBoundedSection report_section 8 s report_section-IsBoundedSection),
    )

-- What is shown of a search: its results, and an end of the search when the run has ended.
abbrev Shows : Bool → Search → Search → Type 0
Shows is_running s t =
    (t.results ≡ s.results)
    × ((is_running || not t.searching) ≡ true)
    × ((is_running || (not s.searching || ltb 0 (length t.results))) ≡ true)

ended-Shows :
    (results : List Source) (searching : Bool) (s t : Search)
    → s.results ≡ results
    → s.searching ≡ searching
    → (if searching && nat_eq (length results) 0
        then none
        else some (record s { results = results; searching = searching && false }))
      ≡ some t
    → Shows false s t
ended-Shows [] true s t e f h = cc
ended-Shows (r ∷ rs) true s t e f h =
    let k : some (record s { results = r ∷ rs; searching = false }) ≡ some t = ground arith in
    subst (Shows false s) (some-injective _ _ k) (sym e, refl, ground arith)
ended-Shows rs false s t e f h =
    subst (Shows false s) (some-injective _ _ h) (sym e, refl, rw f refl)

shown_search_lem :
    (is_running : Bool) (s t : Search) → shown_search is_running s ≡ some t → Shows is_running s t
shown_search_lem true s t h = subst (Shows true s) (some-injective _ _ h) (refl, refl, refl)
shown_search_lem false s t h = ended-Shows s.results s.searching s t refl refl h

-- A web search that is shown was read from an event of version 1 and has at most twelve results, each
-- with texts for a title and a domain. Once the run has ended it does not count as searching, and one
-- whose event still does has results.
inline_web_search_lem :
    (is_running : Bool) (value : Json) (s t : Search)
    → inline_web_search is_running value ≡ some s
    → parse_web_search value ≡ some t
    → IsVersioned "results" value
      × (length s.results ≤ 12)
      × All IsBoundedSource s.results
      × ((is_running || not s.searching) ≡ true)
      × ((is_running || (not t.searching || ltb 0 (length s.results))) ≡ true)
unfolding inline_web_search parse_web_search
inline_web_search_lem is_running value s t h f =
    let k =
      and_then-eq-some (and_then (versioned "results" value) search_of) (shown_search is_running) s
        h in
    let j = and_then-eq-some (versioned "results" value) search_of k.0 k.1 in
    let r = shown_search_lem is_running k.0 s k.2 in
    let xs = records j.0.1 in
    let e : map_from source 0 (take 12 xs) ≡ s.results =
      ap (λ (x : Search). x.results) (some-injective _ _ j.2) ∙ sym r.0 in
    (
      versioned-IsVersioned "results" value j.0.0 j.0.1 j.1,
      subst (λ (ys : List Source). length ys ≤ 12) e (length-taken source 12 xs),
      subst (All IsBoundedSource) e
          (All-taken IsBoundedSource source 12 xs (λ n fs b. source-IsBoundedSource n fs)),
      r.1,
      subst (λ (x : Search). (is_running || (not x.searching || ltb 0 (length s.results))) ≡ true)
          (some-injective _ _ (sym k.1 ∙ f)) r.2,
    )
