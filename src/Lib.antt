-- ===== src/Lib.antt =====
-- Go tools of the repository: the Google Drive snapshotter gdsnap, the todo list todotool, the
-- editor of encrypted files pedit, the light switches lll and huepush, the setup of a machine makecfg,
-- and the tools under utils. Each is a program of its own; they share no code but the packages of
-- Go.
--
-- gdsnap (gdsnap/gdsnap.go) keeps a map from paths to the metadata that the drive lists (the
-- struct gdsnap). `save` and `watch` compare it with the disk and upload what changed, compressed
-- and encrypted; `cat`, `diff` and `restore` fetch a revision and decrypt it.
--   Gdsnap/Glob       matchglob, which the ignore lists and the arguments go through
--   Gdsnap/Filter     fullglobs and filterfiles
--   Gdsnap/State      the structs fileinfo and gdsnap, namePart and shasumPart
--   Gdsnap/Listing    listfiles over the pages of the drive's answer
--   Gdsnap/Token      gettoken
--   Gdsnap/Crypt      the encryption in savepath, and decrypt
--   Gdsnap/Save       savepath: Plan has all that comes before gettoken, Send the requests and the
--                     recursion into directories, Command subcommandSave
--   Gdsnap/Revision   revfetch
--   Gdsnap/Restore    subcommandRestore and subcommandCat
--   Gdsnap/Diff       subcommandDiff
--   Gdsnap/Quota      getquota and checkQuota
--   Gdsnap/Config     readconfig, and the completion of -t in Run
--   Gdsnap/Watch      subcommandWatch: the initial scan and the main loop
--   Gdsnap/Inotify    watchdir: the watches, and the events in the bytes that are read
--   Gdsnap/Main       Run, and the subcommands that ask and print: cat, diff, list, quota, auth
-- todotool (todotool/todo.go, Run) reads reminders and task files, decides which tasks are ready,
-- and lists the unread mail.
--   Todo/Date         normalizedate and the .rems file
--   Todo/Parse        the task files
--   Todo/Resolve      the loop that finds the ready tasks
--   Todo/Mail         the reply of the IMAP server
--   Todo/Subject      splitSubject and decodeRFC2047
--   Todo/Checks       the answers of the blog and of the router, and the list of the inboxes
--   Todo/Network      the goroutines that ask the blog and the inboxes
--   Todo/Run          the files as they are written back, and what is found in them
-- pedit (pedit/pedit.go) decrypts a file, has it edited and writes it back. Pedit has the sections
-- of its workflow, Pedit/Reopen what they leave in the file.
-- lll (lll/lll.go) sets lamps and the display to levels that its arguments name, or prints their
-- levels. Lll has setBrightness and the loop of Run, Lll/Print printBrightness and what it calls.
-- huepush (huepush/huepush.go) sets the buttons of Hue switches to the intent in a file.
--   Huepush/Json      jget on JSON values, with the assertions that panic
--   Huepush/State     the maps of Run, buttondesc and switchdesc
--   Huepush/Extract   the rooms, switches, scenes and mappings that the bridge has
--   Huepush/Intent    the loop over the lines of the intent
--   Huepush/Push      the requests of the update, and Run
--   Huepush/Template  the body of an update
--   Huepush/Dump      the flag -dump
-- makecfg (makecfg/makecfg.go) links dotfiles and tools into a home directory.
--   Makecfg/Files     the file system and the calls of package os
--   Makecfg/Link      the step that puts a link in place
--   Makecfg/Workflow  the state of the workflow, and the sections up to LinkDotfiles
--   Makecfg/Clean     RegenDotfiles, ClearUtils and ClearTrash
--   Makecfg/Build     BuildUtils, and Run
-- bm (utils/bm.go) converts markdown to HTML and back, and serves a file that it watches.
--   Bm/Html           toHTML, with Bm/Replace for the replacers of package strings
--   Bm/Markdown       toMarkdown
--   Bm/Item           readContent
--   Bm/Command        the flags and the conversion in main
--   Bm/Server         the loop of main that polls the file and answers requests
-- Otp (utils/otp.go) computes one-time passwords.
-- Tools/Ybb (ybb/ybb.go) chooses the tool to run, Tools/Muttcfg (utils/muttcfg.go) prints the
-- commands of a mail account, Tools/Tlog (utils/tlog.go) appends notes to a log, and Tools/Firefox
-- (utils/firefox.go) copies a browser's profile between memory and disk. Tools/Cal (utils/cal.go)
-- prints a calendar, and Tools/Httpd (utils/httpd.go) has the handler of a file server.
-- Desktop/Disw (utils/disw.go, next) chooses the displays to switch on, Desktop/I3next
-- (utils/i3next.go) the next window of a workspace.
-- Base, Text, Dict and Paths hold what these share: Boolean tests, integers, texts as lists of bytes,
-- maps as association lists, and the functions of the packages strings, sort and path that are called.
--
-- A text is a list of bytes, and white space and the arguments of lll are those of ASCII. A map is
-- ranged over in the order of its list, which stands for any order that the Go runtime may choose.
--
-- Fuel: the loop of matchglob takes two rounds for each byte of the name and two more, the listing
-- a round for each page, savepath one for each byte of the longest path and two more, watchpath one
-- for each level of the tree, and the subject and the events of a read a round for each byte. A
-- model that runs out of fuel answers with a value of its own, never with a result.
--
-- Not modelled: HTTP, JSON and the inotify system calls, whose answers are arguments; the cipher,
-- the compressor and the hash, which are a record with the laws that reading back needs; log lines;
-- the calendar of package time; the terminal, vim, scp, git and the compilers; the regular
-- expression that finds links, base32 and HMAC. The C tools and the scripts are left
-- out.
pub mod Base
pub mod Text
pub mod Dict
pub mod Otp
pub mod Paths
pub mod Gdsnap
pub mod Todo
pub mod Tools
pub mod Desktop
pub mod Pedit
pub mod Huepush
pub mod Lll
pub mod Bm
pub mod Makecfg
