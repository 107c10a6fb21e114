-- ===== src/Review/Issues.antt =====
-- The quality issues on review-page.jsx.
use cassist.Prelude.{◌≡◌, String, some, List, ◌==◌, filter, get_elem?, ℕ}
use cassist.Review.{Issue}

-- The issues of a target, in order.
abbrev pub issues_of : String → List Issue → List Issue
issues_of id issues = filter (λ issue. issue.target_id == id) issues

abbrev pub Member : Issue → List Issue → Type 0
Member issue issues = (i : ℕ) × (get_elem? issues i ≡ some issue)
