-- ===== src/InlineData/Tests.antt =====
-- Runs of the parsers on small events.
use fleet_agent.Base.{
  ◌≡◌, refl, String, true, false, some, none, [], ◌∷◌, units, is_space, decimal, pos, negsuc,
}
use fleet_agent.Json.{
  Json, Items, Fields, null, bool, num, other_num, str, arr, obj, nil, cons, end, property, field,
}
use fleet_agent.Threads.Units.{utf16, is_blank, trim}
use fleet_agent.InlineData.{
  PlanStatus, SectionState, Progress, Report, Search, parse_progress, parse_report,
  parse_web_search, inline_web_search, progress_tools, text, plan_status, section_state, floor,
  natural_floor, versioned, records,
}
use fleet_agent.InlineData.Parsers.{IsVersioned, IsBoundedProgress, parse_progress_lem}

abbrev version_1 : String → Json → Fields → Json
version_1 key items rest = obj (property "schemaVersion" (num 1) (property key items rest))

-- two steps, the first without an identifier, an item that is no record, and an index below zero
abbrev progress_event : Json
progress_event =
    version_1 "steps"
      (arr (
        cons (obj (property "label" (str " Read ") (property "status" (str "running") end)))
          (cons null (cons (obj (property "id" (str "b") end)) nil))))
      (property "activeIndex" (other_num 0 (negsuc 0)) end)

abbrev progress : Progress
progress = record {
  steps =
      record { id = units "phase-0"; label = units "Read"; status = PlanStatus.running }
      ∷ record { id = units "b"; label = units "Agent step"; status = PlanStatus.pending }
      ∷ [];
  active_index = negsuc 0;
  tools = [];
}

parse_progress_test : parse_progress progress_event ≡ some progress
unfolding parse_progress versioned field records text utf16 trim is_blank is_space plan_status
    decimal floor progress_tools
parse_progress_test = refl

parse_progress_lem_example : IsVersioned "steps" progress_event × IsBoundedProgress progress
parse_progress_lem_example = parse_progress_lem progress_event progress parse_progress_test

abbrev report_event : Json
report_event =
    version_1 "sections"
      (arr (cons (obj (property "preview" (str "P") (property "sources" (num 3) end))) nil)) end

abbrev report : Report
report = record {
  title = units "Research report";
  sections =
      record {
        id = units "section-0";
        heading = units "Report section";
        state = SectionState.pending;
        sources = 3;
        preview = some (units "P");
      }
      ∷ [];
  sources_read = 0;
}

parse_report_test : parse_report report_event ≡ some report
unfolding parse_report versioned field records text utf16 trim is_blank is_space section_state
    decimal natural_floor
parse_report_test = refl

-- a search that the run left unfinished, with and without a result
abbrev search_event : Items → Json
search_event items = version_1 "results" (arr items) (property "searching" (bool true) end)

abbrev one_result : Items
one_result = cons (obj (property "title" (str "T") end)) nil

abbrev search : Search
search = record {
  query = units "Web search";
  results = record { title = units "T"; domain = units "source" } ∷ [];
  visible_results = pos 1;
  searching = false;
  cycle = pos 0;
}

abbrev whole_search : Search
whole_search = record search { searching = true }

inline_web_search_test : inline_web_search false (search_event one_result) ≡ some search
unfolding inline_web_search parse_web_search versioned field records text utf16 trim is_blank
    is_space floor
inline_web_search_test = refl

stale_search_test : inline_web_search false (search_event nil) ≡ none
unfolding inline_web_search parse_web_search versioned field records text utf16 trim is_blank
    is_space floor
stale_search_test = refl

whole_search_test : parse_web_search (search_event one_result) ≡ some whole_search
unfolding parse_web_search versioned field records text utf16 trim is_blank is_space floor
whole_search_test = refl
