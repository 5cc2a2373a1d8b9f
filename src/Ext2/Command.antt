-- ===== src/Ext2/Command.antt =====
-- project3/src/cli.c: the commands and `main`. What a command prints is a value; the layout of the
-- lines, and the text of a time, which `localtime` and `strftime` make, are left out.
pub mod Output
pub mod Ls
pub mod Tree
pub mod Files
pub mod Chmod
pub mod Modes
pub mod Rights
pub mod Making
pub mod Mkdir
pub mod Main
mod Tests
