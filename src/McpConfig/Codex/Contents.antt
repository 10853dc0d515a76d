-- ===== src/McpConfig/Codex/Contents.antt =====
-- lib/mcpconfig/codex.go: the content that `Replace` keeps as it is.
use agentapi_plusplus.McpConfig.Codex.{keep_lines, keep_content}
use agentapi_plusplus.McpConfig.Codex.Kept.{
  AreKept, root_after, keep_lines-AreKept, keep_lines-append, AreKept-append,
}
use agentapi_plusplus.McpConfig.Patterns.{
  is_header, is_mcp_header, is_root_assign, is_marker, skip_space, after_prefix, after_name,
}
use agentapi_plusplus.Prelude.{
  ◌≡◌, refl, sym, ap, ◌∙◌, inl, inr, Bool, true, false, ◌&&◌, List, [], ◌∷◌, ◌++◌, if◌then◌else◌,
  Text, append-nil,
}
use agentapi_plusplus.Strings.{split_lines, join_lines, trim_left, trim_right, has_prefix}
use agentapi_plusplus.Strings.Lines.{
  AreLines, split_lines-AreLines, split_lines-join_lines, join_lines-split_lines,
}
use agentapi_plusplus.Strings.Newlines.{is_newline, split_lines-newline, trim_newlines-split}
use agentapi_plusplus.Strings.Trim.{trim_right_idem}

-- A content that `Replace` keeps as it is.
pub record IsContent (s : Text) : Type 0 where
  pub kept : AreKept true (split_lines s)
  pub trimmed : trim_right is_newline s ≡ s

if-AreLines :
    (test : Bool) (a b : List Text) → AreLines a → AreLines b → AreLines (if test then a else b)
if-AreLines true a b h k = h
if-AreLines false a b h k = k

keep_lines-AreLines : (b r : Bool) (ls : List Text) → AreLines ls → AreLines (keep_lines b r ls)
unfolding keep_lines
keep_lines-AreLines b r [] h = tt
keep_lines-AreLines b r (l ∷ ls) (h, hs) =
    let same = keep_lines-AreLines b r ls hs in
    let headed = keep_lines-AreLines (is_mcp_header l) false ls hs in
    if-AreLines (is_marker l) _ _ same (
      if-AreLines (is_header l) _ _ (if-AreLines (is_mcp_header l) _ _ headed (h, headed))
        (if-AreLines (r && is_root_assign l) _ _ same (if-AreLines b _ _ same (h, same))))

empty_line : AreKept true ([] ∷ [])
unfolding is_marker is_header is_root_assign skip_space trim_left has_prefix after_prefix after_name
empty_line = (refl, inr (refl, refl, tt))

split-kept :
    (ls : List Text) → AreLines ls → AreKept true ls → AreKept true (split_lines (join_lines ls))
unfolding split_lines join_lines
split-kept [] a k = empty_line
split-kept (l ∷ ls) a k = rw (split_lines-join_lines (l ∷ ls) (λ e. cc) a) k

pub keep_content-IsContent : (text : Text) → IsContent (keep_content text)
unfolding keep_content
keep_content-IsContent text =
    let ls = keep_lines false true (split_lines text) in
    let kept =
      split-kept ls (keep_lines-AreLines false true (split_lines text) (split_lines-AreLines text))
        (keep_lines-AreKept true (split_lines text)).0 in
    let (ms, e) = trim_newlines-split (join_lines ls) in
    record {
      kept =
          AreKept-append true (split_lines (trim_right is_newline (join_lines ls))) ms
            (rw (← e) kept);
      trimmed = trim_right_idem is_newline (join_lines ls);
    }

empty_kept : (r : Bool) → AreKept r ([] ∷ [])
unfolding is_marker is_header is_root_assign skip_space trim_left has_prefix after_prefix after_name
empty_kept true = (refl, inr (refl, refl, tt))
empty_kept false = (refl, inr (refl, refl, tt))

-- An empty line behind kept lines.
AreKept-empty : (r : Bool) (ls : List Text) → AreKept r ls → AreKept r (ls ++ [] ∷ [])
AreKept-empty r [] k = empty_kept r
AreKept-empty r (l ∷ ls) (m, inl (h, k, rest)) = (m, inl (h, k, AreKept-empty false ls rest))
AreKept-empty r (l ∷ ls) (m, inr (h, k, rest)) = (m, inr (h, k, AreKept-empty r ls rest))

keep_lines-AreKept_all : (ls : List Text) → AreKept true ls → keep_lines false true ls ≡ ls
unfolding keep_lines
keep_lines-AreKept_all ls k =
    ap (keep_lines false true) (sym (append-nil ls))
    ∙ keep_lines-append true ls [] k
    ∙ append-nil ls

pub newline-kept :
    (c : Text) → AreKept true (split_lines c) → AreKept true (split_lines (c ++ b'\n' ∷ []))
unfolding split_lines
newline-kept c k = rw (split_lines-newline c []) (AreKept-empty true (split_lines c) k)

-- A kept text that ends where nothing is kept behind it.
pub keep_content-before :
    (p text : Text) (ms : List Text)
    → AreKept true (split_lines p)
    → split_lines text ≡ split_lines p ++ ms
    → ((r : Bool) → keep_lines false r ms ≡ [])
    → keep_content text ≡ trim_right is_newline p
unfolding keep_content
keep_content-before p text ms k e none_kept =
    ap (λ ls. trim_right is_newline (join_lines ls))
      (ap (keep_lines false true) e
        ∙ keep_lines-append true (split_lines p) ms k
        ∙ ap (◌++◌ (split_lines p)) (none_kept (root_after true (split_lines p)))
        ∙ append-nil (split_lines p))
    ∙ ap (trim_right is_newline) (join_lines-split_lines p)
