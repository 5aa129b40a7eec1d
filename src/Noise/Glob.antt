-- ===== src/Noise/Glob.antt =====
-- internal/noise/noise.go: `matchGlob`, `split` and `matchSegments`. The indices `pi` and `si` are
-- the rests of the two lists behind them, `star` and `rewind` the rests saved at the last `**`.
mod Meaning
mod Loop
mod Search
pub use Meaning.*
pub use Search.{match_segments_lem}
unfoldable pub use Loop.{finish, retry, loop, match_segments, match_glob, split, split_slashes}
