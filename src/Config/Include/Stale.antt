-- ===== src/Config/Include/Stale.antt =====
-- `skip_lines` of an include, which no later `read` resets.
use toolchain_cpp.Common.{
  ◌+◌, ◌-◌, ◌≤◌, [], List, some, ◌≡◌, ap, ◌∙◌, Bytes, length, All, arith, append-nil, sym,
}
use toolchain_cpp.Config.Inline.{Directory, text_of, contents_of, files_of, place}
use toolchain_cpp.Config.Include.{IsLine, Ends, reads, reads-skip, reads-end}
use toolchain_cpp.Config.Parser.{Reals, ConfigParser, read}
use toolchain_cpp.Config.Step.{read-reading}

-- A parser whose `skip_lines` is beyond the lines of the file, as an include at the end of a file that was read before
-- leaves it, reads none of them: with enough fuel `read` returns, with no message, the variables as they were.
pub read-stale :
    {D : Type 0} (c : Reals D) (dir : Directory) (ls : List Bytes) (p : ConfigParser D)
    → dir p.my_filename ≡ some ls
    → All IsLine ls
    → length ls + 1 ≤ p.skip_lines
    → Ends c dir (λ fuel. read c fuel (files_of dir) p) p
read-stale c dir ls p here clean long =
    let e = reads-end c dir p.my_filename p (1 + length ls) p.skip_lines in
    record {
      enough = length ls + e.enough;
      final = e.final;
      returned = λ fuel k.
          read-reading c (files_of dir) fuel p (text_of ls) (ap contents_of here)
          ∙ ap (λ t. reads c dir fuel (place p p.my_filename (text_of t) 1 p.skip_lines))
              (sym (append-nil ls))
          ∙ reads-skip c dir p.my_filename ls [] fuel (fuel - length ls) p 1 p.skip_lines
              (omega arith) clean (omega arith)
          ∙ e.returned (fuel - length ls) (omega arith);
      closed = e.closed;
      like = e.like;
    }
